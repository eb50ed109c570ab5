-- ===== src/CString.antt =====
-- `std::string` made of a C string, as src/datareceiver.cpp, src/client.cpp and src/json.cpp do.
use instant_send.Prelude.{◌≡◌, ◌≢◌, refl, [], ◌∷◌, ◌++◌, arith, ◌==◌, if◌then◌else◌, Bytes}

-- What stands before the first NUL.
unfoldable pub c_string : Bytes → Bytes
c_string [] = []
c_string (c ∷ cs) = let rest = c_string cs in if c == 0 then [] else c ∷ rest

-- No byte is NUL: a text that a C string can hold.
abbrev pub NoNul : Bytes → Type 0
NoNul [] = Unit
NoNul (c ∷ cs) = (c ≢ 0) × NoNul cs

pub c_string-NoNul : (s rest : Bytes) → NoNul s → c_string (s ++ 0 ∷ rest) ≡ s
unfolding c_string
c_string-NoNul [] rest h = refl
c_string-NoNul (c ∷ s) rest h = ground (arith, c_string-NoNul s rest)

pub c_string-whole : (s : Bytes) → NoNul s → c_string s ≡ s
unfolding c_string
c_string-whole [] h = refl
c_string-whole (c ∷ s) h = ground (arith, c_string-whole s)

pub NoNul-append : (s t : Bytes) → NoNul s → NoNul t → NoNul (s ++ t)
NoNul-append [] t h k = k
NoNul-append (c ∷ s) t h k = (h.0, NoNul-append s t h.1 k)
