-- ===== src/LoadApp/Device.antt =====
-- cmds/app.c over phfs/phfs.c: files of raw devices are files that the copying can read.
use plo.Common.{ℕ, ◌+◌, ◌-◌, ◌≤◌, ◌<◌, ◌≡◌, refl, ap, ◌∙◌, arith, min, List}
use plo.Common.Result.{Result, ok}
use plo.Devs.{Devs, dev_read}
use plo.Msg.Header.{Msg}
use plo.Phfs.{Phfs, Handler, timeout_ms}
use plo.Phfs.Access.{device_of, file_of}
use plo.Phfs.Contents.{IsRawFile, read_file-read_device}
use plo.Phfs.Files.{phfs_files}
use plo.LoadApp.Copied.{part, Reads, behind, part-behind}

-- A device that holds `content`: in the states `Q`, a read of its range from `from` to `to` gives some
-- of the bytes that are asked for, and leaves such a state.
abbrev pub Holds : {T : Type 0} → (T → Type 0) → Devs T → ℕ → ℕ → (ℕ → ℕ) → ℕ → ℕ → Type 0
Holds {T} Q devs major minor content from to =
    (offs n : ℕ) (t : T)
    → Q t
    → from ≤ offs
    → 0 < n
    → offs + n ≤ to
    → (m : ℕ) × (t' : T) × (0 < m)
      × (m ≤ n)
      × (dev_read devs major minor offs n timeout_ms t ≡ (ok (part content offs m), t'))
      × Q t'

-- The files of phfs/phfs.c are such files, as long as its tables are as they are: a file of a raw
-- device has the bytes of the device from the file's address on.
pub phfs_files-Reads :
    {T : Type 0} (w : ℕ) (devs : Devs T)
    (send : ℕ → ℕ → Msg → Msg → T → Result (Unit {0}) × Msg × T) (stack : Msg × Msg) (p : Phfs)
    (h : Handler) (Q : T → Type 0) (content : ℕ → ℕ)
    → IsRawFile w p h
    → Holds Q devs
        (device_of p h).major
        (device_of p h).minor
        content
        (file_of p h).addr
        ((file_of p h).addr + (file_of p h).size)
    → Reads
        (λ (s : Phfs × T). (s.0 ≡ p) × Q s.1)
        (phfs_files w devs send stack)
        h
        (behind content (file_of p h).addr)
        (file_of p h).size
phfs_files-Reads {T} w devs send stack p h Q content v holds offs n (q, t) (e, here) inside
      some_asked =
    let f = file_of p h in
    let (m, t', got, most, call, held) =
      holds (f.addr + offs) (min n (f.size - offs)) t here (omega arith) (omega arith)
        (omega arith) in
    (
      m,
      (q, t'),
      got,
      omega arith,
      read_file-read_device w devs send stack p h v offs n q t e (omega arith)
          ∙ ap (λ (r : Result (List ℕ) × T). (r.0, (q, r.1))) call
          ∙ ap (λ (bs : List ℕ). (ok bs, (q, t')))
              (part-behind m content f.addr offs (f.addr + offs) refl),
      (e, held),
    )
