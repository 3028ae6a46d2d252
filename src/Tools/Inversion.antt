-- ===== src/Tools/Inversion.antt =====
-- What a command line program that printed something has read.
use accounts_superposition_s.Prelude.{◌≡◌, refl, Option, none, some}
use accounts_superposition_s.Outcome.{Outcome, ok, err, panic, fatal, bind-ok, ◌>>=◌}
use accounts_superposition_s.World.{Reply, answer, outcome}
use accounts_superposition_s.Client.Sent.{outcome-eq-ok}
use accounts_superposition_s.Tools.Command.{must, must_some}

pub must-ok : {A : Type 0} (m : Outcome A) {a : A} → must m ≡ ok a → m ≡ ok a
must-ok (ok a) p = p
must-ok (err e) p = cc
must-ok panic p = cc
must-ok (fatal e) p = cc

pub must-answer :
    {A B : Type 0} (r : Reply A) {f : A → Outcome B} {b : B}
    → must (outcome r) >>= f ≡ ok b
    → (a : A) × (r ≡ answer a) × (f a ≡ ok b)
must-answer r p =
    let (a, e, rest) = bind-ok (must (outcome r)) p in
    (a, outcome-eq-ok r (must-ok (outcome r) e), rest)

pub must_some-ok :
    {A B : Type 0} (o : Option A) {f : A → Outcome B} {b : B}
    → must_some o >>= f ≡ ok b
    → (a : A) × (o ≡ some a) × (f a ≡ ok b)
must_some-ok (some a) p = (a, refl, p)
must_some-ok none p = cc
