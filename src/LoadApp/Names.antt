-- ===== src/LoadApp/Names.antt =====
-- cmds/app.c: the names of maps in an argument, and the identifiers that are stored for them.
use plo.Common.{
  ℕ, suc, ◌≡◌, refl, ap, ap₂, arith, false, Bool-cases, List, [], ◌∷◌, ◌==◌, if◌then◌else◌, inl,
  inr, length, ◌≢◌,
}
use plo.Common.CString.{Bytes}
use plo.Common.Result.{Result, ok, err}
use plo.Cmd.Prompt.{c_string}
use plo.Syspage.State.{Syspage}
use plo.Syspage.Resolve.{map_name_resolve}
use plo.LoadApp.{behind_name, prepend, maps_parse, maps_add2prog, maps_written}

-- The pieces of a text between the separators: the first one, and the others.
unfoldable pub pieces : ℕ → Bytes → Bytes × List Bytes
pieces sep [] = ([], [])
pieces sep (c ∷ cs) =
    let rest = pieces sep cs in if c == sep then ([], rest.0 ∷ rest.1) else (c ∷ rest.0, rest.1)

-- The identifiers of the maps of these names, up to the first that does not exist.
unfoldable pub resolve_all : Syspage → List Bytes → Result (List ℕ)
resolve_all sys [] = ok []
resolve_all sys (n ∷ ns) = prepend (map_name_resolve sys n) (resolve_all sys ns)

-- The identifiers in front of the first name that no map has.
unfoldable pub resolve_known : Syspage → List Bytes → List ℕ
resolve_known sys [] = []
resolve_known sys (n ∷ ns) = elim (map_name_resolve sys n) [
  | err _ ↦ []
  | ok id ↦ id ∷ resolve_known sys ns
]

-- A text without NULs.
abbrev pub NoNul : Bytes → Type 0
NoNul [] = Unit {0}
NoNul (c ∷ cs) = (c ≢ 0) × NoNul cs

-- One name, and those behind it.
maps_add2prog-suc :
    (sys : Syspage) (n : ℕ) (text name : Bytes) (names : List Bytes)
    → c_string text ≡ name
    → maps_add2prog sys n (behind_name text) ≡ resolve_all sys names
    → maps_add2prog sys (suc n) text ≡ resolve_all sys (name ∷ names)
unfolding maps_add2prog resolve_all
maps_add2prog-suc sys n text name names first rest =
    ap₂ (λ a b. prepend (map_name_resolve sys a) b) first rest

maps_written-suc :
    (sys : Syspage) (n : ℕ) (text name : Bytes) (names : List Bytes)
    → c_string text ≡ name
    → maps_written sys n (behind_name text) ≡ resolve_known sys names
    → maps_written sys (suc n) text ≡ resolve_known sys (name ∷ names)
unfolding maps_written resolve_known
maps_written-suc sys n text name names first rest =
    ap₂
      (λ (a : Bytes) (b : List ℕ). elim (map_name_resolve sys a) as (λ _. List ℕ) [
        | err _ ↦ []
        | ok id ↦ id ∷ b
      ])
      first rest

-- What `cmd_mapsParse` leaves of a text: how many names, the first of them, and the others.
maps_parse-pieces :
    (sys : Syspage) (sep : ℕ) (text : Bytes)
    → NoNul text
    → ((maps_parse text sep).0 ≡ suc (length (pieces sep text).1))
      × (c_string (maps_parse text sep).1 ≡ (pieces sep text).0)
      × (maps_add2prog sys (length (pieces sep text).1) (behind_name (maps_parse text sep).1)
          ≡ resolve_all sys (pieces sep text).1)
      × (maps_written sys (length (pieces sep text).1) (behind_name (maps_parse text sep).1)
          ≡ resolve_known sys (pieces sep text).1)
unfolding maps_parse pieces c_string behind_name maps_add2prog resolve_all maps_written
    resolve_known
maps_parse-pieces sys sep [] h = (refl, refl, refl, refl)
maps_parse-pieces sys sep (c ∷ cs) (nul, h) =
    let ih = maps_parse-pieces sys sep cs h in
    elim (Bool-cases (c == sep)) [
      | inl cut ↦
          rw (cut, maps_parse, pieces)
            (
              ap suc ih.0,
              refl,
              maps_add2prog-suc sys (length (pieces sep cs).1) (maps_parse cs sep).1
                  (pieces sep cs).0 (pieces sep cs).1 ih.1 ih.2,
              maps_written-suc sys (length (pieces sep cs).1) (maps_parse cs sep).1
                  (pieces sep cs).0 (pieces sep cs).1 ih.1 ih.3,
            )
      | inr keep ↦
          let text : (c == 0) ≡ false = ground arith in
          rw (keep, text, maps_parse, pieces) (ih.0, ap (λ r. c ∷ r) ih.1, ih.2, ih.3)
    ]

-- `cmd_mapsParse` followed by `cmd_mapsAdd2Prog` gives the identifiers of the maps that are named
-- between the separators, in their order, or the error of the first name that no map has, for a
-- text without NULs.
pub maps_add2prog-maps_parse :
    (sys : Syspage) (sep : ℕ) (text : Bytes)
    → NoNul text
    → maps_add2prog sys (maps_parse text sep).0 (maps_parse text sep).1
      ≡ resolve_all sys ((pieces sep text).0 ∷ (pieces sep text).1)
maps_add2prog-maps_parse sys sep text h =
    let parsed = maps_parse-pieces sys sep text h in
    rw parsed.0 (
      maps_add2prog-suc sys (length (pieces sep text).1) (maps_parse text sep).1 (pieces sep text).0
        (pieces sep text).1 parsed.1 parsed.2)

-- The identifiers that `cmd_mapsAdd2Prog` writes behind `cmd_mapsParse` are those in front of the
-- first name that no map has, for a text without NULs.
pub maps_written-maps_parse :
    (sys : Syspage) (sep : ℕ) (text : Bytes)
    → NoNul text
    → maps_written sys (maps_parse text sep).0 (maps_parse text sep).1
      ≡ resolve_known sys ((pieces sep text).0 ∷ (pieces sep text).1)
maps_written-maps_parse sys sep text h =
    let parsed = maps_parse-pieces sys sep text h in
    rw parsed.0 (
      maps_written-suc sys (length (pieces sep text).1) (maps_parse text sep).1 (pieces sep text).0
        (pieces sep text).1 parsed.1 parsed.3)

-- The number of names that `cmd_mapsParse` returns.
pub length-maps_parse :
    (text : Bytes)
    → NoNul text
    → (maps_parse text b';').0 ≡ length ((pieces b';' text).0 ∷ (pieces b';' text).1)
unfolding maps_parse pieces
length-maps_parse [] h = refl
length-maps_parse (c ∷ cs) (nul, h) = elim (Bool-cases (c == b';')) [
  | inl cut ↦ rw (cut, maps_parse, pieces) (ap suc (length-maps_parse cs h))
  | inr keep ↦ rw (keep, maps_parse, pieces) (length-maps_parse cs h)
]
