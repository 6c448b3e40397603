-- ===== src/Ctype.antt =====
-- lib/ctype.c. A character is its code; the answers outside ASCII do not depend on the sign of
-- `char`, since every test has an upper bound below 128.
use plo.Common.{ℕ, Bool, ◌&&◌, ◌||◌, ltb, leb, ◌==◌}

unfoldable pub islower : ℕ → Bool
islower c = leb b'a' c && leb c b'z'

unfoldable pub isupper : ℕ → Bool
isupper c = leb b'A' c && leb c b'Z'

unfoldable pub isalpha : ℕ → Bool
unfolding islower isupper
isalpha c = islower c || isupper c

unfoldable pub isdigit : ℕ → Bool
isdigit c = leb b'0' c && leb c b'9'

unfoldable pub isalnum : ℕ → Bool
unfolding islower isupper isdigit
isalnum c = islower c || isupper c || isdigit c

unfoldable pub isblank : ℕ → Bool
isblank c = c == b' ' || c == b'\t'

unfoldable pub isspace : ℕ → Bool
unfolding isblank
isspace c = isblank c || (leb b'\n' c && leb c b'\r')

unfoldable pub isgraph : ℕ → Bool
isgraph c = ltb b' ' c && ltb c 0x7f

unfoldable pub isprint : ℕ → Bool
isprint c = leb b' ' c && ltb c 0x7f
