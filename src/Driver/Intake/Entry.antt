-- ===== src/Driver/Intake/Entry.antt =====
-- The table entry that a validated read gets.
use uring.Prelude.{ℕ, ◌+◌, ◌^◌, ◌≤◌, ◌<◌, ◌≡◌, refl, ◌⊎◌, inl, inr, some, arith, length-replicate}
use uring.Prelude.Word.{word, i64_max}
use uring.Geometry.{Geometry, max_read_len, current_position, aligned_geometry}
use uring.Geometry.Superset.{
  aligned_geometry-Covers, IsLegalAlign, aligned_geometry_total, power_pos,
}
use uring.Driver.{ReadMsg}
use uring.Driver.Inv.{IsEntry}
use uring.Driver.Intake.{new_pending}

-- What `submit` has checked before it sends a read.
pub record IsValidRead (m : ReadMsg) : Type 0 where
  pub id_small : m.id < 2 ^ 63
  pub offset_word : m.offset < word
  pub len_capped : m.len ≤ max_read_len
  pub geometry : Geometry
  pub accepted : aligned_geometry m.offset m.len m.align ≡ some geometry
  pub region_capped : geometry.region_len ≤ max_read_len
  pub end_signed :
      ((m.align ≡ 1) × (geometry.kernel_offset ≡ current_position))
      ⊎ (geometry.kernel_offset + geometry.region_len ≤ i64_max)

pub valid-align : (m : ReadMsg) → IsValidRead m → IsLegalAlign m.align
valid-align m v =
    (aligned_geometry_total m.offset m.len m.align v.offset_word v.len_capped).0
      (v.geometry, v.accepted)

pub new_pending-IsEntry :
    (m : ReadMsg) (v : IsValidRead m) (size pad : ℕ)
    → pad + v.geometry.region_len ≤ size
    → IsEntry (new_pending m v.geometry size pad)
unfolding new_pending
new_pending-IsEntry m v size pad h =
    let c = aligned_geometry-Covers m.offset m.len m.align v.geometry v.offset_word v.accepted in
    record {
      well = record {
        read_within = omega arith;
        buffer_holds = omega (arith, length-replicate {A = ℕ} size 0);
        range_within = c.covered;
        capped = v.region_capped;
        positioned = elim v.end_signed [ inl (one, stream) ↦ inl stream | inr end ↦ inr end ];
        retries_capped = omega arith;
        block = power_pos m.align (valid-align m v).0;
        aligned_offset = inr c.aligned_start;
        aligned_len = c.aligned_len;
        aligned_read = omega arith;
      };
      caller = (m.done, refl);
    }
