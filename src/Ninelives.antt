-- ===== src/Ninelives.antt =====
-- lib/ninelives/ninelives.go: calldata for the markets. The ABI encoder is go-ethereum's.
pub mod Unpack
use accounts_superposition_s.Prelude.{
  ℕ, ◌+◌, ◌-◌, ◌*◌, Bytes, List, length, take, drop, ◌==◌, if◌then◌else◌,
}
use accounts_superposition_s.Outcome.{note, bytes, ◌◂◌, Outcome, ok, err, panic}
use accounts_superposition_s.Go.{set_bytes, copy, itoa}
use accounts_superposition_s.Types.{zeros}
use accounts_superposition_s.World.{Reply, answer, failed, Externals}

-- `if err != nil { panic(err) }`
abbrev must : Reply Bytes → Outcome Bytes
must (answer b) = ok b
must (failed e) = panic

module _ (x : Externals) where
  unfoldable pub new_mint : Bytes → Bytes → Bytes → Bytes → Outcome Bytes
  new_mint outcome value referrer recipient =
      must (x.pack_mint "mint8A059B6E" outcome (set_bytes value) referrer recipient)

  unfoldable pub new_mint_schedule_claim : Bytes → Bytes → Bytes → Bytes → Outcome Bytes
  new_mint_schedule_claim outcome value referrer recipient =
      must (x.pack_mint "mintScheduleClaimC8A5591F" outcome (set_bytes value) referrer recipient)

  unfoldable pub new_claim_for_other : List Bytes → Bytes → Outcome Bytes
  new_claim_for_other addresses eoa = must (x.pack_addresses "claimForOther" addresses eoa)

  unfoldable pub new_payoff_for_other : List Bytes → Bytes → Outcome Bytes
  new_payoff_for_other addresses eoa = must (x.pack_addresses "payoffForOther" addresses eoa)

pub record MintCall : Type 0 where
  pub outcome : Bytes
  pub value : Bytes
  pub referrer : Bytes
  pub recipient : Bytes

-- `b[lo:hi]`, within the bounds
abbrev pub slice : ℕ → ℕ → Bytes → Bytes
slice lo hi b = take (hi - lo) (drop lo b)

-- The source writes `referrer` twice and never writes `recipient`.
unfoldable pub unpack_mint : Bytes → Outcome MintCall
unpack_mint cd =
    if length cd == 4 + 32 * 4
    then ok (record {
      outcome = copy (zeros 8) (take (32 - 8) (slice 4 (4 + 32) cd));
      value = copy (zeros 32) (slice (4 + 32) (4 + 32 * 2) cd);
      referrer =
          copy (copy (zeros 20) (take (32 - 20) (slice (4 + 32 * 2) (4 + 32 * 3) cd)))
            (take (32 - 20) (slice (4 + 32 * 3) (4 + 32 * 4) cd));
      recipient = zeros 20;
    })
    else err (note "bad mint cd: " ◂ bytes (itoa (length cd)))
