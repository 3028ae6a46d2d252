-- ===== src/Tests/Permitted.antt =====
-- One permit of a request.
use accounts_superposition_s.Prelude.{◌≡◌, refl, some, pos, [], replicate, arith}
use accounts_superposition_s.Exec.{pure, lift, ◌>>=◌, on_error, wrap}
use accounts_superposition_s.Exec.Inversion.{Returned}
use accounts_superposition_s.Go.{hex_decode, decode_pair, hex_value, trim_prefix, has_prefix}
use accounts_superposition_s.Types.{Permit}
use accounts_superposition_s.Model
use accounts_superposition_s.World.{Event}
use accounts_superposition_s.Convertor.{
  str_to_bytes, checked_v, checked_deadline, new_permit, new_permit_graph, permit_graph,
}
use accounts_superposition_s.Convertor.Permits.{IsPermitOf, permit_graph-IsPermitOf}
use accounts_superposition_s.Tests.Fixture.{word_text}

abbrev asked_permit : Model.Permit
asked_permit = record {
  deadline = pos 1700000000;
  permit_v = pos 27;
  permit_r = word_text;
  permit_s = word_text;
}

abbrev made_permit : Permit
made_permit = record {
  asset = 0;
  deadline = 1700000000;
  v = 27;
  r = replicate 32 2;
  s = replicate 32 2;
}

permit_made : Returned {E = Event} (permit_graph 0 (some asked_permit)) [] (some made_permit) []
unfolding permit_graph new_permit_graph new_permit checked_v checked_deadline str_to_bytes
    hex_decode decode_pair hex_value trim_prefix has_prefix pure lift ◌>>=◌ on_error wrap
permit_made = record { value = refl; history = refl }

permit_graph-IsPermitOf_example :
    (p : Permit) × (some made_permit ≡ some p) × IsPermitOf 0 asked_permit p
permit_graph-IsPermitOf_example =
    permit_graph-IsPermitOf 0 asked_permit (some made_permit) [] [] (omega arith) permit_made
