-- ===== src/Phfs/Contents.antt =====
-- phfs/phfs.c as the commands use it: what a read of a file of a raw device gives, from what the
-- device holds in the file's range.
use plo.Common.{
  ℕ, ◌+◌, ◌-◌, ◌^◌, ◌≤◌, ◌<◌, ◌≡◌, ap, sym, subst, ◌∙◌, arith, [], min, length, take, drop,
  length-drop,
}
use plo.Common.CString.{Bytes}
use plo.Common.Result.{Result, ok}
use plo.Devs.{Devs, dev_read}
use plo.Msg.Header.{Msg}
use plo.Phfs.{raw, Phfs, Handler, handlers, aliases, timeout_ms}
use plo.Phfs.Access.{device_of, file_of}
use plo.Phfs.Files.{phfs_files}
use plo.Phfs.Ranges.{read_write-InFile, take-min}

-- The handler names a file of a raw device, within both tables, and the file ends below `2 ^ w`.
pub record IsRawFile (w : ℕ) (p : Phfs) (h : Handler) : Type 0 where
  pub prot_raw : (device_of p h).prot ≡ raw
  pub device_in : h.pd < handlers
  pub file_in : h.id < aliases
  pub fits : (file_of p h).addr + (file_of p h).size < 2 ^ w

module _ {T : Type 0} (w : ℕ) (devs : Devs T)
    (send : ℕ → ℕ → Msg → Msg → T → Result (Unit {0}) × Msg × T) (stack : Msg × Msg) (p : Phfs)
    (h : Handler) (v : IsRawFile w p h) where
  -- The read of the device that a read of the file is.
  abbrev pub read_device : ℕ → ℕ → T → Result Bytes × T
  read_device offs n t =
      dev_read devs (device_of p h).major (device_of p h).minor ((file_of p h).addr + offs)
        (min n ((file_of p h).size - offs)) timeout_ms t

  pub read_file-read_device :
      (offs n : ℕ) (q : Phfs) (t : T)
      → q ≡ p
      → offs ≤ (file_of p h).size
      → (phfs_files w devs send stack).read_file h offs n (q, t)
        ≡ ((read_device offs n t).0, (q, (read_device offs n t).1))
  unfolding phfs_files
  read_file-read_device offs n q t e k =
      subst
        (λ q'.
          (phfs_files w devs send stack).read_file h offs n (q', t)
          ≡ ((read_device offs n t).0, (q', (read_device offs n t).1)))
        (sym e)
        (ap (λ (r : Result Bytes × T). (r.0, (p, r.1)))
          (read_write-InFile w devs send stack p h offs n [] t v.prot_raw v.device_in v.file_in
            v.fits k).0)

  -- Where the device gives the bytes of the file in its range and keeps its state, a read of the file
  -- gives the bytes from the offset on, as many as are asked for and there.
  pub read_file-content :
      (content : Bytes)
      → length content ≡ (file_of p h).size
      → (Q : T → Type 0)
      → ((offs n : ℕ) (t : T)
          → Q t
          → offs + n ≤ length content
          → dev_read devs
              (device_of p h).major
              (device_of p h).minor
              ((file_of p h).addr + offs)
              n
              timeout_ms
              t
            ≡ (ok (take n (drop offs content)), t))
      → (offs n : ℕ) (s : Phfs × T) → (s.0 ≡ p) × Q s.1
      → offs ≤ length content
      → (phfs_files w devs send stack).read_file h offs n s ≡ (ok (take n (drop offs content)), s)
  read_file-content content l Q holds offs n (q, t) (e, here) k =
      let left : length (drop offs content) ≡ (file_of p h).size - offs =
        omega (arith, length-drop offs content) in
      let cut : take (min n ((file_of p h).size - offs)) (drop offs content)
          ≡ take n (drop offs content) =
        ap (λ m. take m (drop offs content)) {x = min n ((file_of p h).size - offs)}
          {y = min (length (drop offs content)) n} (omega (arith, left))
        ∙ take-min n (drop offs content) in
      read_file-read_device offs n q t e (omega arith)
      ∙ ap (λ (r : Result Bytes × T). (r.0, (q, r.1)))
          (holds offs (min n ((file_of p h).size - offs)) t here (omega arith))
      ∙ ap (λ (bs : Bytes). (ok bs, (q, t))) cut
