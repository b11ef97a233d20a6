-- ===== src/Ptp/Device/Inside.antt =====
-- No reader of a dataset passes the end of the buffer (crates/ptp-proto/src/lib.rs).
use bsdroid.Base.{length}
use bsdroid.Base.{ℕ, ◌+◌, ◌≤◌, String, ◌≡◌, [], arith}
use bsdroid.Ptp.Reader.{Reader, Parser, or_default, ◌>>=◌, read_u32_array, read_string}
use bsdroid.Ptp.Reader.Bounds.{
  Takes, Takes-pure, Takes-or_default, Takes-bind, Takes-le, read_u16-Takes, read_u32-Takes,
  read_u64-Takes, read_string-Takes, read_u16_array-Takes, read_u32_array-Takes,
}
use bsdroid.Ptp.Object.{read_object_info}
use bsdroid.Ptp.PropList.{read_prop_list}
use bsdroid.Ptp.PropList.Bound.{read_prop_list-Takes}
use bsdroid.Ptp.Device.{read_storage_info, read_device_info}

-- The second cursor is one of the same buffer, lies in it, and did not go back.
abbrev pub StaysInside : Reader → Reader → Type 0
StaysInside r s = (s.buf ≡ r.buf) × (r.pos ≤ s.pos) × (s.pos ≤ length r.buf)

after {ℓ κ} :
    {A : Type ℓ} {B : Type κ} (n : ℕ) (p : Parser A) (f : A → Parser B)
    → Takes n p
    → ((a : A) → Takes 0 (f a))
    → Takes 0 (p >>= f)
after n p f t k = Takes-le 0 (n + 0) _ (omega arith) (Takes-bind n 0 p f t k)

maybe_string : (field : String) → Takes 0 (or_default [] (read_string field))
maybe_string field = Takes-or_default [] 1 _ (read_string-Takes field)

storage_info-Takes : Takes 0 read_storage_info
unfolding read_storage_info
storage_info-Takes = after 2 _ _ (read_u16-Takes _) λ _. after 2 _ _ (read_u16-Takes _) λ _.
    after 2 _ _ (read_u16-Takes _) λ _. after 8 _ _ (read_u64-Takes _) λ _.
      after 8 _ _ (read_u64-Takes _) λ _. after 4 _ _ (read_u32-Takes _) λ _.
        after 1 _ _ (read_string-Takes _) λ _. after 1 _ _ (read_string-Takes _) λ _. Takes-pure _

device_info-Takes : Takes 0 read_device_info
unfolding read_device_info
device_info-Takes = after 2 _ _ (read_u16-Takes _) λ _. after 4 _ _ (read_u32-Takes _) λ _.
    after 2 _ _ (read_u16-Takes _) λ _. after 1 _ _ (read_string-Takes _) λ _.
      after 2 _ _ (read_u16-Takes _) λ _. after 4 _ _ (read_u16_array-Takes _) λ _.
        after 4 _ _ (read_u16_array-Takes _) λ _. after 4 _ _ (read_u16_array-Takes _) λ _.
          after 4 _ _ (read_u16_array-Takes _) λ _. after 4 _ _ (read_u16_array-Takes _) λ _.
            after 0 _ _ (maybe_string _) λ _.
              after 0 _ _ (maybe_string _) λ _.
                after 0 _ _ (maybe_string _) λ _. after 0 _ _ (maybe_string _) λ _. Takes-pure _

object_info-Takes : Takes 0 read_object_info
unfolding read_object_info
object_info-Takes = after 4 _ _ (read_u32-Takes _) λ _. after 2 _ _ (read_u16-Takes _) λ _.
    after 2 _ _ (read_u16-Takes _) λ _. after 4 _ _ (read_u32-Takes _) λ _.
      after 2 _ _ (read_u16-Takes _) λ _. after 4 _ _ (read_u32-Takes _) λ _.
        after 4 _ _ (read_u32-Takes _) λ _. after 4 _ _ (read_u32-Takes _) λ _.
          after 4 _ _ (read_u32-Takes _) λ _. after 4 _ _ (read_u32-Takes _) λ _.
            after 4 _ _ (read_u32-Takes _) λ _. after 4 _ _ (read_u32-Takes _) λ _.
              after 2 _ _ (read_u16-Takes _) λ _. after 4 _ _ (read_u32-Takes _) λ _.
                after 4 _ _ (read_u32-Takes _) λ _. after 1 _ _ (read_string-Takes _) λ _.
                  after 0 _ _ (maybe_string _) λ _. after 0 _ _ (maybe_string _) λ _. Takes-pure _

stays {ℓ} :
    {A : Type ℓ} (n : ℕ) (p : Parser A)
    → Takes n p
    → (r : Reader) → r.pos ≤ length r.buf
    → StaysInside r (p r).1
stays n p t r h = (t.buf r h, (t.inside r h).0, (t.inside r h).1)

-- From a cursor in the buffer, and on any bytes a device can send, the readers of the datasets keep the cursor inside the buffer and never move it back, whether they succeed or fail.
pub readers_stay_inside :
    (r : Reader)
    → r.pos ≤ length r.buf
    → StaysInside r (read_object_info r).1
      × StaysInside r (read_device_info r).1
      × StaysInside r (read_storage_info r).1
      × StaysInside r (read_u32_array "array" r).1
      × StaysInside r (read_prop_list r).1
readers_stay_inside r h = (
  stays 0 _ object_info-Takes r h,
  stays 0 _ device_info-Takes r h,
  stays 0 _ storage_info-Takes r h,
  stays 4 _ (read_u32_array-Takes "array") r h,
  stays 4 _ read_prop_list-Takes r h,
)
