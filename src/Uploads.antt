-- ===== src/Uploads.antt =====
-- internal/uploads/uploads.go: streaming an upload into a staging file. SHA-256 is a parameter. What
-- each round of the loop meets is an input.
pub mod Copying
use tinkercloud.Prelude.{
  ℕ, ◌+◌, ◌-◌, ◌==◌, Bool, true, false, not, ◌&&◌, Option, none, some, List, [], ◌∷◌, ◌++◌, Text,
  length, ltb, if◌then◌else◌,
}
use tinkercloud.Prelude.Strings.{take}

pub data Ending : Type 0 where
  more eof read_failed : Ending

-- One round: whether the context is done, what the reader gives, at most the buffer's 32 KiB, and
-- how many bytes the destination takes where it fails.
pub record Round : Type 0 where
  pub cancelled : Bool
  pub data_read : Text
  pub ending : Ending
  pub stops_at : Option ℕ

pub record Result : Type 0 where
  pub bytes : ℕ
  pub digest : Text

-- `ErrQuota`, the context's error, and those of the reader and of the destination.
pub data Error : Type 0 where
  quota_exceeded cancelled_error io_error : Error

-- Where the rounds end before the loop does, it still waits.
pub data Outcome : Type 0 where
  stored : Result → Outcome
  refused : Error → Outcome
  waiting : Outcome

-- The count `n`, the bytes of the destination, and those of the hash.
pub record Progress : Type 0 where
  pub n : ℕ
  pub dst : Text
  pub hashed : Text

-- `io.MultiWriter(dst, h).Write`: the hash gets what the destination took whole.
abbrev pub write_chunk : Option ℕ → Text → Progress → Progress × Bool
write_chunk none b p =
    (record { n = p.n + length b; dst = p.dst ++ b; hashed = p.hashed ++ b }, true)
write_chunk (some k) b p =
    (record p { n = p.n + length (take k b); dst = p.dst ++ take k b }, false)

module _ (sha256 : Text → Text) where
  unfoldable pub copy_loop : ℕ → List Round → Progress → Text × Outcome
  copy_loop limit [] p = (p.dst, waiting)
  copy_loop limit (r ∷ rs) p =
      let w = if length r.data_read == 0 then (p, true) else write_chunk r.stops_at r.data_read p in
      let rest = copy_loop limit rs w.0 in
      if r.cancelled
      then (p.dst, refused cancelled_error)
      else if not (length r.data_read == 0) && ltb (limit - p.n) (length r.data_read)
      then (p.dst, refused quota_exceeded)
      else if not w.1
      then (w.0.dst, refused io_error)
      else elim r.ending [
        | eof ↦ (w.0.dst, stored (record { bytes = w.0.n; digest = sha256 w.0.hashed }))
        | read_failed ↦ (w.0.dst, refused io_error)
        | more ↦ rest
      ]

  -- `Copy`: what the destination got, and the outcome. A limit that is not positive is read as 0.
  unfoldable pub copy : ℕ → List Round → Text × Outcome
  unfolding copy_loop
  copy limit rs =
      if limit == 0
      then ([], refused quota_exceeded)
      else copy_loop limit rs (record { n = 0; dst = []; hashed = [] })
