-- ===== src/Phfs/Names.antt =====
-- phfs/phfs.c: the names of the registered devices and files, and how they are found again.
use plo.Common.{
  ℕ, zero, suc, ◌+◌, ◌≤◌, ◌<◌, ◌≡◌, ◌⊎◌, leb, length-take, length-append, length-map, refl, sym,
  subst, ap, ◌∙◌, Bool-cases, inl, inr, Option, some, List, [], ◌∷◌, ◌++◌, length, take, map,
  get_or, arith,
}
use plo.Common.CString.{Bytes, str_eq, str_eq_iff}
use plo.Common.Result.{Result, ok, err, enodev, einval}
use plo.Devs.{Devs, check}
use plo.Phfs.{
  Prot, Device, Phfs, handlers, aliases, find_prot, zero_device, device_chars, file_chars,
  find_alias, device_aliases, file_aliases, get_handler_id, dev_reg, dev_get,
}

-- A name that is found stays where it is when another is added.
find_alias-append :
    (i : ℕ) (a b : Bytes) (names : List Bytes) (k : ℕ)
    → find_alias i a names ≡ ok k
    → find_alias i a (names ++ b ∷ []) ≡ ok k
unfolding find_alias
find_alias-append i a b [] k e = ground (arith, e)
find_alias-append i a b (n ∷ names) k e = ground (arith, find_alias-append (suc i) a b names k)

-- A name that is not found is the last once it is added.
find_alias-append_new :
    (i : ℕ) (a : Bytes) (names : List Bytes) (e : ℕ)
    → find_alias i a names ≡ err e
    → find_alias i a (names ++ a ∷ []) ≡ ok (i + length names)
unfolding find_alias
find_alias-append_new i a [] e h = ground (arith, str_eq_iff a a)
find_alias-append_new i a (n ∷ names) e h = ground (arith, find_alias-append_new (suc i) a names e)

map-snoc :
    {A B : Type 0} (f : A → B) (xs : List A) (x : A) → map f (xs ++ x ∷ []) ≡ map f xs ++ f x ∷ []
map-snoc f [] x = refl
map-snoc f (y ∷ xs) x = ap (λ zs. f y ∷ zs) (map-snoc f xs x)

get_or-snoc : {A : Type 0} (xs : List A) (x d : A) → get_or (xs ++ x ∷ []) (length xs) d ≡ x
get_or-snoc [] x d = refl
get_or-snoc (y ∷ xs) x d = get_or-snoc xs x d

take_short : {A : Type 0} (n : ℕ) (xs : List A) → length xs ≤ n → take n xs ≡ xs
take_short zero [] h = refl
take_short zero (x ∷ xs) h = elim h [ ]
take_short (suc n) [] h = refl
take_short (suc n) (x ∷ xs) h = ap (λ zs. x ∷ zs) (take_short n xs (omega arith))

Result-cases : {A : Type 0} (r : Result A) → ((a : A) × (r ≡ ok a)) ⊎ ((e : ℕ) × (r ≡ err e))
Result-cases (ok a) = inl (a, refl)
Result-cases (err e) = inr (e, refl)

absurd_lt : {n a b : ℕ} → n < a → b ≤ n → a ≡ b → ⊥
absurd_lt h u e = omega arith

-- No name of the list is longer than `n`.
abbrev pub Short : ℕ → List Bytes → Type 0
Short n [] = Unit
Short n (b ∷ bs) = (length b ≤ n) × Short n bs

Short-append :
    (n : ℕ) (bs : List Bytes) (b : Bytes) → Short n bs → length b ≤ n → Short n (bs ++ b ∷ [])
Short-append n [] b v h = (h, tt)
Short-append n (c ∷ bs) b v h = (v.0, Short-append n bs b v.1 h)

-- A name longer than each of the list is not found.
find_alias_long :
    (i n : ℕ) (a : Bytes) (names : List Bytes)
    → n < length a
    → Short n names
    → find_alias i a names ≡ err einval
unfolding find_alias
find_alias_long i n a [] h v = refl
find_alias_long i n a (b ∷ names) h v = elim (Bool-cases (str_eq a b)) [
  | inl e ↦
      let same : length a ≡ length b = ap length ((str_eq_iff a b).0 e) in
      absurd (absurd_lt h v.0 same)
  | inr e ↦ rw e (find_alias_long (suc i) n a names h v.1)
]

-- The tables hold no more than their size, and each name fits into its array.
pub record IsValid (p : Phfs) : Type 0 where
  pub devices_le : length p.devices ≤ handlers
  pub files_le : length p.files ≤ aliases
  pub device_names : Short device_chars (device_aliases p)
  pub file_names : Short file_chars (file_aliases p)

-- What a registration of a device under `alias` gives: the device is found under the name, and
-- the others are where they were.
pub record Registered (p : Phfs) (alias : Bytes) (d : Device) (p' : Phfs) : Type 0 where
  pub valid : IsValid p'
  pub found : dev_get p' alias ≡ ok d
  pub kept : (a : Bytes) (k : ℕ) → get_handler_id p a ≡ ok k → get_handler_id p' a ≡ ok k
  pub same_files : p'.files ≡ p.files

-- The state with one more device.
abbrev add_device : Phfs → Device → Phfs
add_device p d = record p { devices = p.devices ++ d ∷ [] }

dev_reg-accepted :
    {S : Type 0} (devs : Devs S) (p : Phfs) (alias : Bytes) (major minor : ℕ) (prot : Option Bytes)
    (p' : Phfs) (q : Prot)
    → find_prot prot ≡ ok q
    → dev_reg devs p (some alias) major minor prot ≡ (ok 0, p')
    → (length p.devices < handlers)
      × ((c : ℕ) × (get_handler_id p alias ≡ err c))
      × (p'
          ≡ add_device p
              (record { alias = take device_chars alias; major = major; minor = minor; prot = q }))
unfolding dev_reg
dev_reg-accepted devs p alias major minor prot p' q e h =
    elim (Bool-cases (leb handlers (length p.devices))) [
      | inl full ↦ ground (arith, h)
      | inr room ↦ elim (Result-cases (check devs major minor)) [
        | inr c ↦ ground (arith, h, c.1)
        | inl c ↦ elim (Result-cases (get_handler_id p alias)) [
          | inl g ↦ ground (arith, h, c.1, g.1)
          | inr g ↦ (ground arith, g, ground (arith, h, c.1, g.1, e))
        ]
      ]
    ]

dev_get_lem :
    (p : Phfs) (alias : Bytes) (i : ℕ)
    → get_handler_id p alias ≡ ok i
    → dev_get p alias ≡ ok (get_or p.devices i zero_device)
unfolding dev_get
dev_get_lem p alias i e = rw (e, dev_get) refl

dev_get_err :
    (p : Phfs) (alias : Bytes) (c : ℕ)
    → get_handler_id p alias ≡ err c
    → dev_get p alias ≡ err enodev
unfolding dev_get
dev_get_err p alias c e = rw (e, dev_get) refl

add_device-Registered :
    (p : Phfs) (alias : Bytes) (d : Device)
    → IsValid p
    → length p.devices < handlers
    → (c : ℕ) × (get_handler_id p alias ≡ err c)
    → d.alias ≡ take device_chars alias
    → length alias ≤ device_chars
    → Registered p alias d (add_device p d)
unfolding get_handler_id
add_device-Registered p alias d v l n e short =
    let aliases_eq : device_aliases (add_device p d) ≡ device_aliases p ++ d.alias ∷ [] =
      map-snoc (λ c. c.alias) p.devices d in
    let named : get_handler_id (add_device p d) alias ≡ ok (length p.devices) =
      subst (λ ns. find_alias 0 alias ns ≡ ok (length p.devices))
        (sym (
          aliases_eq
          ∙ ap (λ a. device_aliases p ++ a ∷ []) (e ∙ take_short device_chars alias short)))
        (find_alias-append_new 0 alias (device_aliases p) n.0 n.1
          ∙ ap ok (omega (arith, length-map p.devices (λ c. c.alias)))) in
    record {
      valid = record {
        devices_le = omega (arith, length-append p.devices (d ∷ []));
        files_le = v.files_le;
        device_names = subst (Short device_chars) (sym aliases_eq) (
            Short-append device_chars (device_aliases p) d.alias v.device_names (
              subst (λ a. length a ≤ device_chars) (sym e)
                (omega (arith, length-take device_chars alias))));
        file_names = v.file_names;
      };
      found =
          dev_get_lem (add_device p d) alias (length p.devices) named
          ∙ ap ok (get_or-snoc p.devices d zero_device);
      kept = λ a k f.
          subst (λ ns. find_alias 0 a ns ≡ ok k) (sym aliases_eq)
            (find_alias-append 0 a d.alias (device_aliases p) k f);
      same_files = refl;
    }

-- A device that `phfs_devReg` accepts under a name of at most 7 characters takes the next entry:
-- `phfs_devGet` finds it with its numbers and its protocol, each name that was found before is
-- found at its index, the files are the same, and the tables stay valid.
pub dev_reg-Registered :
    {S : Type 0} (devs : Devs S) (p : Phfs) (alias : Bytes) (major minor : ℕ) (prot : Option Bytes)
    (p' : Phfs) (q : Prot)
    → IsValid p
    → length alias ≤ device_chars
    → find_prot prot ≡ ok q
    → dev_reg devs p (some alias) major minor prot ≡ (ok 0, p')
    → Registered p alias
        (record { alias = take device_chars alias; major = major; minor = minor; prot = q })
        p'
dev_reg-Registered devs p alias major minor prot p' q v short e h =
    let (l, n, same) = dev_reg-accepted devs p alias major minor prot p' q e h in
    let d : Device = record {
      alias = take device_chars alias;
      major = major;
      minor = minor;
      prot = q;
    } in
    subst (Registered p alias d) (sym same) (add_device-Registered p alias d v l n refl short)

-- A device cannot be opened or looked up under a name of more than 7 characters, whatever is
-- registered: `phfs_devReg` cuts such a name, and the comparison takes the whole.
pub dev_get_long :
    (p : Phfs) (alias : Bytes)
    → IsValid p
    → device_chars < length alias
    → (get_handler_id p alias ≡ err einval) × (dev_get p alias ≡ err enodev)
unfolding get_handler_id
dev_get_long p alias v h =
    let lost : get_handler_id p alias ≡ err einval =
      find_alias_long 0 device_chars alias (device_aliases p) h v.device_names in
    (lost, dev_get_err p alias einval lost)
