-- ===== src/Msg/Store.antt =====
-- What `msg_read` does with the bytes of one frame: escapes, headers, data.
use plo.Common.{
  ℕ, ◌+◌, ◌-◌, ◌≤◌, ◌<◌, ◌≡◌, ◌≢◌, refl, ap, ap₂, sym, ◌∙◌, arith, true, false, List, [], ◌∷◌, ◌++◌,
  append_assoc, append-nil, length, length-append, set, drop, ◌==◌, if◌then◌else◌,
}
use plo.Common.CString.{Bytes}
use plo.Common.Result.{ok, err, enxio}
use plo.Msg.Header.{Msg, get_len, get_csum, checksum}
use plo.Msg.Frame.{escape, escapes}
use plo.Msg.Reader.{Reader, Step, more, stop, after_store, store, read_byte, read_chunk}

abbrev pub concat : List Bytes → Bytes
concat [] = []
concat (b ∷ bs) = b ++ concat bs

-- The call goes on with the bytes `cs`, unless it has returned.
abbrev pub resume : Step → Bytes → Step
resume (more r) cs = read_chunk r cs
resume (stop res st m) cs = stop res st m

-- An escaped byte reaches `store` as it was before.
pub read-escape :
    (r : Reader) (c : ℕ) (rest : Bytes)
    → r.in_frame ≡ true
    → r.escfl ≡ false
    → r.len < 520
    → read_chunk r (escape c ++ rest) ≡ resume (store r c) rest
unfolding read_chunk read_byte store escape
read-escape r c rest f e h = ground arith

-- A byte of the header that is not the last.
pub store_header :
    (r : Reader) (c : ℕ)
    → r.len < 7
    → store r c
      ≡ more (record r { escfl = false; len = r.len + 1; headers = set r.headers r.len c })
unfolding store after_store
store_header r c h = ground arith

-- The end of a frame of `n` bytes: the checksum decides.
abbrev pub finish : Msg → ℕ → Step
finish m n = if get_csum m == checksum m then stop (ok n) false m else stop (err enxio) false m

-- A byte of the data.
store_body :
    (r : Reader) (c : ℕ)
    → 8 ≤ r.len
    → let m = record (r.msg) { body = set r.msg.body (r.len - 8) c } in
      store r c ≡ (
        if r.len + 1 == get_len r.msg + 8
        then finish m (r.len + 1)
        else more (record r { escfl = false; len = r.len + 1; msg = m }))
unfolding store after_store get_len
store_body r c h = ground arith

set-middle : (pre post : Bytes) (x c : ℕ) → set (pre ++ x ∷ post) (length pre) c ≡ pre ++ c ∷ post
set-middle [] post x c = refl
set-middle (p ∷ pre) post x c = ap (◌∷◌ p) (set-middle pre post x c)

-- What `store` makes of a byte of the data, where it leaves the bytes `b` and has read `n`.
abbrev stored : Reader → Bytes → ℕ → Step
stored r b n =
    let m = record (r.msg) { body = b } in
    if n == get_len r.msg + 8
    then finish m n
    else more (record r { escfl = false; len = n; msg = m })

store_at :
    (r : Reader) (c x : ℕ) (pre post : Bytes)
    → r.len ≡ 8 + length pre
    → r.msg.body ≡ pre ++ x ∷ post
    → store r c ≡ stored r (pre ++ c ∷ post) (8 + length pre + 1)
store_at r c x pre post l b = store_body r c (omega arith) ∙ ap₂ (stored r) placed (omega arith)
  where
    placed : set r.msg.body (r.len - 8) c ≡ pre ++ c ∷ post
    placed = rw (b, l) (ap (λ i. set (pre ++ x ∷ post) i c) (omega arith) ∙ set-middle pre post x c)

stored_last :
    (r : Reader) (b rest : Bytes) (n : ℕ)
    → n ≡ 8 + get_len r.msg
    → resume (stored r b n) rest ≡ finish (record (r.msg) { body = b }) (8 + get_len r.msg)
stored_last r b rest n e = ground arith

stored_more :
    (r : Reader) (b cs : Bytes) (n : ℕ)
    → n ≢ get_len r.msg + 8
    → resume (stored r b n) cs
      ≡ read_chunk (record r { escfl = false; len = n; msg = record (r.msg) { body = b } }) cs
stored_more r b cs n e = ground arith

-- The data up to its end, from the byte at `length pre` on.
pub read_body :
    (d : ℕ) (ds pre post rest : Bytes) (r : Reader)
    → r.in_frame ≡ true
    → r.escfl ≡ false
    → r.len ≡ 8 + length pre
    → r.msg.body ≡ pre ++ post
    → length (d ∷ ds) ≤ length post
    → get_len r.msg ≡ length pre + length (d ∷ ds)
    → get_len r.msg ≤ 512
    → read_chunk r (concat (escapes (d ∷ ds)) ++ rest)
      ≡ finish
          (record (r.msg) { body = pre ++ (d ∷ ds ++ drop (length (d ∷ ds)) post) })
          (8 + get_len r.msg)
unfolding escapes get_len
read_body d ds pre [] rest r f e l b room n small = absurd (omega arith)
read_body d [] pre (x ∷ post) rest r f e l b room n small =
    ap (λ w. read_chunk r (w ++ rest)) (append-nil (escape d))
    ∙ read-escape r d rest f e (omega arith)
    ∙ ap (λ s. resume s rest) (store_at r d x pre post l b)
    ∙ stored_last r (pre ++ d ∷ post) rest _ (omega arith)
read_body d (d' ∷ ds) pre (x ∷ post) rest r f e l b room n small =
    ap (read_chunk r) (append_assoc (escape d) _ rest)
    ∙ read-escape r d _ f e (omega arith)
    ∙ ap (λ s. resume s (concat (escapes (d' ∷ ds)) ++ rest)) (store_at r d x pre post l b)
    ∙ stored_more r (pre ++ d ∷ post) _ _ (omega arith)
    ∙ read_body d' ds (pre ++ d ∷ []) post rest
        (record r {
          escfl = false;
          len = 8 + length pre + 1;
          msg = record (r.msg) { body = pre ++ d ∷ post };
        })
        f refl (omega (arith, longer)) (sym (append_assoc pre (d ∷ []) post)) (omega arith)
        (omega (arith, longer)) small
    ∙ ap (λ b'. finish (record (r.msg) { body = b' }) (8 + get_len r.msg))
        (append_assoc pre (d ∷ []) (d' ∷ ds ++ drop (length (d' ∷ ds)) post))
  where
    longer : length (pre ++ d ∷ []) ≡ length pre + 1
    longer = length-append pre (d ∷ [])
