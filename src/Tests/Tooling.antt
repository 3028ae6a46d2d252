-- ===== src/Tests/Tooling.antt =====
-- The command line programs with one signer, and the server that reads what they print.
use accounts_superposition_s.Prelude.{
  ◌≡◌, refl, ◌≤◌, codes, [], ◌∷◌, ◌++◌, replicate, none, IsArray, pos, arith,
}
use accounts_superposition_s.Outcome.{ok}
use accounts_superposition_s.Exec.Progress.{Returns}
use accounts_superposition_s.Go.{set_string, set_bytes, hex_encode, trim_prefix, has_prefix}
use accounts_superposition_s.Types.{zeros}
use accounts_superposition_s.World.{answer, Externals}
use accounts_superposition_s.Convertor.{amount_bytes}
use accounts_superposition_s.ClientAddr.{get_client_addr}
use accounts_superposition_s.Graph.Resolver.{secp_max_s}
use accounts_superposition_s.Graph.Account.{request_secret}
use accounts_superposition_s.System.Provenance.{kept_as}
use accounts_superposition_s.System.Serving.{IsServing}
use accounts_superposition_s.Tools.Command.{Tooling, Printed, argument, last_byte, printed}
use accounts_superposition_s.Tools.Signature.{MakesSignatures}
use accounts_superposition_s.Tools.LeftpadInt.{leftpad_int, line_of, leftpad_int-amount_bytes}
use accounts_superposition_s.Tools.SignStdin.{sign_stdin, preimage_of}
use accounts_superposition_s.Tools.SignStdin.Accepted.{secret_text, request_secret-sign_stdin}
use accounts_superposition_s.Tools.MakePermit.{make_permit, permit_digest, domain_sep, struct_hash}
use accounts_superposition_s.Tools.MakePermit.Decoded.{IsReadAs, make_permit-IsReadAs}
use accounts_superposition_s.Tests.Fixture.{
  node, config, nobody, service_key, user, user_text, word_text,
}

-- One key signs everything.
abbrev signer : Externals
signer = record node { sig_to_pub = λ digest sig. answer user; public_key = λ k. user }

abbrev tooling : Tooling
tooling = record {
  sign = λ digest key. answer (replicate 32 1 ++ replicate 32 2 ++ 1 ∷ []);
  keccak256_all = λ texts. zeros 32;
  keccak256_hash = λ texts. zeros 32;
  big_to_hash = λ z. zeros 32;
  max_hash = replicate 32 255;
}

ones-IsArray : IsArray 32 (replicate 32 1)
ones-IsArray = record { size = refl; bytes = omega arith }

twos-IsArray : IsArray 32 (replicate 32 2)
twos-IsArray = record { size = refl; bytes = omega arith }

twos_small : set_bytes (replicate 32 2) ≤ secp_max_s
unfolding secp_max_s set_bytes
twos_small = omega arith

makes : MakesSignatures signer tooling
makes digest key sig e = record {
  r = replicate 32 1;
  s = replicate 32 2;
  v = 1;
  parts = cc (e);
  r_array = ones-IsArray;
  s_array = twos-IsArray;
  v_bit = omega arith;
  s_small = twos_small;
  recovers = refl;
}

leftpad_int-amount_bytes_example :
    leftpad_int (codes "leftpad-int" ∷ codes "1000" ∷ []) ≡ line_of (amount_bytes (codes "1000"))
leftpad_int-amount_bytes_example = leftpad_int-amount_bytes (codes "leftpad-int") (codes "1000") []

abbrev secret_signature : Printed
secret_signature = record {
  v = 28;
  r = hex_encode (replicate 32 1);
  s = hex_encode (replicate 32 2);
}

secret_signed :
    sign_stdin signer tooling
      (codes "sign-stdin" ∷ word_text ∷ [])
      (answer (secret_text service_key (pos 5)))
    ≡ ok secret_signature
unfolding sign_stdin argument printed last_byte preimage_of trim_prefix has_prefix
secret_signed = refl

known_key : signer.hex_to_ecdsa (trim_prefix word_text (codes "0x")) ≡ answer word_text
unfolding trim_prefix has_prefix
known_key = refl

serving :
    IsServing signer
      (get_client_addr signer config.accounts_factory_addr (signer.hex_to_address user_text))
      (kept_as signer config user_text)
      (pos 5)
serving = record {
  deployed = λ h. (1 ∷ [], refl, omega arith);
  random = λ h. (replicate 32 0xab, refl, refl);
  inserts = λ secret h size fresh. (tt, refl);
}

request_secret-sign_stdin_example :
    Returns
      (request_secret signer config nobody user_text
        (pos 5)
        (pos 28)
        (hex_encode (replicate 32 1))
        (hex_encode (replicate 32 2))
        none)
      []
request_secret-sign_stdin_example =
    request_secret-sign_stdin signer tooling makes service_key refl config nobody
      (codes "sign-stdin") word_text [] user_text (pos 5) word_text none secret_signature [] refl
      refl refl known_key secret_signed serving (λ u. u)

permit_printed :
    make_permit signer tooling (
      codes "make-permit" ∷ word_text ∷ user_text ∷ codes "7" ∷ user_text ∷ codes "1700000000" ∷ [])
    ≡ ok secret_signature
unfolding make_permit argument printed last_byte set_string permit_digest domain_sep struct_hash
permit_printed = refl

make_permit-IsReadAs_example :
    IsReadAs signer tooling word_text user_text
      (codes "7")
      user_text
      (codes "1700000000")
      secret_signature
make_permit-IsReadAs_example =
    make_permit-IsReadAs signer tooling makes (codes "make-permit") word_text user_text (codes "7")
      user_text (codes "1700000000") secret_signature permit_printed
