-- ===== src/Database/Statements.antt =====
-- Which rows a statement adds.
use accounts_superposition_s.Prelude.{
  ℕ, ◌≡◌, some, refl, ◌⊎◌, inl, inr, Bytes, String, List, [], ◌∷◌, ◌++◌, false, Bool-cases, length,
  ltb, leb, ◌^◌, ◌≢◌, ℤ,
}
use accounts_superposition_s.World.{
  Event, insert_secret, insert_nonce_secret, insert_transaction, Reply, answer, failed, History,
}
use accounts_superposition_s.Database.{
  trim_right, next, character, Secret, Nonce, Tables, add_secret, has_nonce, add_nonce,
  accounts_insert_nonce_secret_3, add_transaction, execute, kept, done, Database, tables_of,
  exec_on,
}

abbrev pub new_secrets : Event → List Secret
new_secrets (insert_secret t s) = (trim_right t, some (trim_right s)) ∷ []
new_secrets (insert_nonce_secret t s n) = (trim_right t, some (trim_right s)) ∷ []
new_secrets _ = []

abbrev pub new_nonces : Event → List Nonce
new_nonces (insert_nonce_secret t s n) = (trim_right t, n) ∷ []
new_nonces _ = []

-- The statement was not against the unique index.
abbrev pub IsFresh : Event → Tables → Type 0
IsFresh (insert_nonce_secret t s n) db = has_nonce db.nonces (trim_right t) n ≡ false
IsFresh _ db = Unit

-- From the one state to the other, the event's rows were added.
pub record IsExecuted (e : Event) (db db' : Tables) : Type 0 where
  pub secrets : db'.secrets ≡ new_secrets e ++ db.secrets
  pub nonces : db'.nonces ≡ new_nonces e ++ db.nonces
  pub old_secrets : db'.old_secrets ≡ db.old_secrets
  pub fresh : IsFresh e db

answer-injective : {A : Type 0} {a b : A} → answer a ≡ answer b → a ≡ b
answer-injective e = cc (e)

next-answer :
    {A B : Type 0} (r : Reply A) {f : A → Reply B} {b : B}
    → next r f ≡ answer b
    → (a : A) × (r ≡ answer a) × (f a ≡ answer b)
next-answer (answer a) p = (a, refl, p)
next-answer (failed e) p = cc

character-answer : (n : ℕ) (s : Bytes) {t : Bytes} → character n s ≡ answer t → trim_right s ≡ t
unfolding character
character-answer n s p = elim (Bool-cases (ltb n (length (trim_right s)))) [
  | inl e ↦ absurd (cc (rw e at p))
  | inr e ↦ answer-injective (rw e at p)
]

add_secret-rows :
    (t s : Bytes) (db : Tables) {db' : Tables}
    → add_secret t s db ≡ answer db'
    → record db { secrets = (trim_right t, some (trim_right s)) ∷ db.secrets } ≡ db'
unfolding add_secret
add_secret-rows t s db p =
    let (t', e, rest) = next-answer (character 42 t) p in
    let (s', e', rest') = next-answer (character 64 s) rest in
    rw (character-answer 42 t e, character-answer 64 s e') (answer-injective rest')

add_nonce-rows :
    (t : Bytes) (n : ℤ) (db : Tables) {db' : Tables}
    → add_nonce t n db ≡ answer db'
    → (has_nonce db.nonces (trim_right t) n ≡ false)
      × (record db { nonces = (trim_right t, n) ∷ db.nonces } ≡ db')
unfolding add_nonce
add_nonce-rows t n db p =
    let (t', e, rest) = next-answer (character 42 t) p in
    rw (character-answer 42 t e) (elim (Bool-cases (has_nonce db.nonces t' n)) [
      | inl taken ↦ absurd (cc (rw taken at rest))
      | inr fresh ↦ (fresh, answer-injective (rw fresh at rest))
    ])

add_transaction-rows :
    (t hash : Bytes) (gas : ℕ) (desc : String) (db : Tables) {db' : Tables}
    → add_transaction t hash gas desc db ≡ answer db'
    → (db'.secrets ≡ db.secrets) × (db'.nonces ≡ db.nonces) × (db'.old_secrets ≡ db.old_secrets)
unfolding add_transaction
add_transaction-rows t hash gas desc db p =
    let (t', e, rest) = next-answer (character 42 t) p in
    let (h, e', rest') = next-answer (character 66 hash) rest in
    elim (Bool-cases (leb (2 ^ 31) gas)) [
      | inl big ↦ absurd (cc (rw big at rest'))
      | inr small ↦ rw (← answer-injective (rw small at rest')) (refl, refl, refl)
    ]

same-IsExecuted :
    (e : Event) (db : Tables) {db' : Tables}
    → new_secrets e ≡ []
    → new_nonces e ≡ []
    → IsFresh e db
    → db ≡ db'
    → IsExecuted e db db'
same-IsExecuted e db s n fresh same =
    rw (← same)
      (record { secrets = rw s refl; nonces = rw n refl; old_secrets = refl; fresh = fresh })

insert_secret-IsExecuted :
    (t s : Bytes) (db : Tables) {db' : Tables}
    → add_secret t s db ≡ answer db'
    → IsExecuted (insert_secret t s) db db'
insert_secret-IsExecuted t s db p =
    rw (← add_secret-rows t s db p)
      (record { secrets = refl; nonces = refl; old_secrets = refl; fresh = tt })

insert_nonce_secret-IsExecuted :
    (t s : Bytes) (n : ℤ) (db : Tables) {db' : Tables}
    → accounts_insert_nonce_secret_3 t s n db ≡ answer db'
    → IsExecuted (insert_nonce_secret t s n) db db'
unfolding accounts_insert_nonce_secret_3
insert_nonce_secret-IsExecuted t s n db p =
    let (db₁, added, rest) = next-answer (add_nonce t n db) p in
    let (fresh, same) = add_nonce-rows t n db added in
    let last = add_secret-rows t s db₁ rest in
    rw (← last, ← same)
      (record { secrets = refl; nonces = refl; old_secrets = refl; fresh = fresh })

insert_transaction-IsExecuted :
    (t hash : Bytes) (gas : ℕ) (desc : String) (db : Tables) {db' : Tables}
    → add_transaction t hash gas desc db ≡ answer db'
    → IsExecuted (insert_transaction t hash gas desc) db db'
insert_transaction-IsExecuted t hash gas desc db p =
    let (s, n, o) = add_transaction-rows t hash gas desc db p in
    record { secrets = s; nonces = n; old_secrets = o; fresh = tt }

-- A statement that succeeds adds its rows and nothing else, and not against the unique index.
pub execute-IsExecuted :
    (e : Event) (db : Tables) {db' : Tables} → execute e db ≡ answer db' → IsExecuted e db db'
unfolding execute
execute-IsExecuted (insert_secret t s) db p = insert_secret-IsExecuted t s db p
execute-IsExecuted (insert_nonce_secret t s n) db p = insert_nonce_secret-IsExecuted t s n db p
execute-IsExecuted (insert_transaction t h gas desc) db p =
    insert_transaction-IsExecuted t h gas desc db p
execute-IsExecuted _ db p = same-IsExecuted _ db refl refl tt (answer-injective p)

settled :
    (e : Event) (db : Tables) (r : Reply Tables)
    → execute e db ≡ r
    → (IsExecuted e db (kept db r) × (done r ≡ answer tt))
      ⊎ ((kept db r ≡ db) × (done r ≢ answer tt))
settled e db (answer db') p = inl (execute-IsExecuted e db p, refl)
settled e db (failed t) p = inr (refl, λ q. cc (q))

module _ (d : Database) where
  -- The event changed the database after `h`, or left it as it was.
  pub tables_of-cases :
      (e : Event) (h : History)
      → (IsExecuted e (tables_of d h) (tables_of d (e ∷ h)) × (exec_on d e h ≡ answer tt))
        ⊎ ((tables_of d (e ∷ h) ≡ tables_of d h) × (exec_on d e h ≢ answer tt))
  unfolding tables_of exec_on
  tables_of-cases e h = elim (Bool-cases (d.up e h)) [
    | inl up ↦ rw up (settled e (tables_of d h) (execute e (tables_of d h)) refl)
    | inr down ↦ rw down (inr (refl, λ p. cc (p)))
  ]
