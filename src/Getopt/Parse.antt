-- ===== src/Getopt/Parse.antt =====
-- The cursor of `lib_getopt`.
use plo.Common.{ℕ, ◌+◌, ◌≤◌, ◌<◌, ◌≡◌, arith, List, some, ◌⊎◌}
use plo.Common.CString.{Bytes}
use plo.Getopt.{Opt, option, getopt}

-- `lib_getopt` advances: a call that returns an option has moved on by at least one letter of the
-- same argument, or to a later argument at whose first letter it stands; and it never moves back
-- nor past the arguments.
pub getopt_advances :
    (argc : ℕ) (argv : List Bytes) (optstring : Bytes) (o : Opt) (c : ℕ) (o' : Opt)
    → 1 ≤ o.optind
    → o.optind ≤ argc
    → getopt argc argv optstring o ≡ (some c, o')
    → ((o'.optind ≡ o.optind) × (o'.optwhere ≡ o.optwhere + 1))
      ⊎ ((o.optind < o'.optind) × (o'.optind ≤ argc) × (o'.optwhere ≡ 1))
unfolding getopt option
getopt_advances argc argv optstring o c o' h h' e = ground arith
