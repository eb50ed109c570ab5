-- ===== src/ConfigTool/Saved.antt =====
-- src/configtool.cpp, src/json.cpp: a configuration that was saved, loaded again.
use instant_send.Prelude.{
  ℕ, zero, suc, ◌≤◌, ◌≡◌, refl, Bool, true, false, some, [], ◌∷◌, arith, Bytes, length, take, drop,
  take-drop, length-append, length-drop, codes, Bool-cases, inl, inr,
}
use instant_send.CString.{NoNul, c_string-whole}
use instant_send.Json.Syntax.{Json}
use instant_send.Json.Float.{FloatOps}
use instant_send.Json.Loader.{bytes_eq}
use instant_send.Json.Equal.{bytes_eq_refl}
use instant_send.Json.Printer.{print}
use instant_send.Json.Printer.Plain.{print-NoNul}
use instant_send.Json.Printable.{IsPrintable}
use instant_send.Json.Whole.{cfg_read_str-print}
use instant_send.Json.Cast.{value}
use instant_send.ConfigTool.Files.{
  Files, temporary, sector_size, sectors, cfg_read_file, rename, save_cfg,
}

bytes_eq-length : (a b : Bytes) → bytes_eq a b ≡ true → length a ≡ length b
unfolding bytes_eq
bytes_eq-length [] [] h = refl
bytes_eq-length [] (y ∷ ys) h = cc
bytes_eq-length (x ∷ xs) [] h = cc
bytes_eq-length (x ∷ xs) (y ∷ ys) h = ground (arith, bytes_eq-length xs ys)

temporary_differs : (file : Bytes) → bytes_eq file (temporary file) ≡ false
temporary_differs file = elim (Bool-cases (bytes_eq file (temporary file))) [
  | inl e ↦
      absurd
        (omega (arith, bytes_eq-length file (temporary file) e, length-append file (codes "_tmp")))
  | inr e ↦ e
]

take-NoNul : (n : ℕ) (s : Bytes) → NoNul s → NoNul (take n s)
take-NoNul zero s h = tt
take-NoNul (suc n) [] h = tt
take-NoNul (suc n) (c ∷ s) h = (h.0, take-NoNul n s h.1)

drop-NoNul : (n : ℕ) (s : Bytes) → NoNul s → NoNul (drop n s)
drop-NoNul zero s h = h
drop-NoNul (suc n) [] h = tt
drop-NoNul (suc n) (c ∷ s) h = drop-NoNul n s h.1

-- A text with no NUL is read whole.
sectors-NoNul : (fuel : ℕ) (s : Bytes) → NoNul s → length s ≤ fuel → sectors fuel s ≡ s
unfolding sectors
sectors-NoNul zero [] h enough = refl
sectors-NoNul zero (c ∷ s) h enough = absurd (omega arith)
sectors-NoNul (suc fuel) [] h enough = refl
sectors-NoNul (suc fuel) (c ∷ s) h enough =
    rw
      (
        c_string-whole (take sector_size (c ∷ s)) (take-NoNul sector_size (c ∷ s) h),
        sectors-NoNul fuel (drop sector_size (c ∷ s)) (drop-NoNul sector_size (c ∷ s) h)
            (omega (arith, length-drop sector_size (c ∷ s))),
      )
      (take-drop sector_size (c ∷ s))

module _ {F : Type 0} (fl : FloatOps F) (opens : Bytes → Bool) where
  pub saved :
      (cfg : Json F) (c : ℕ) (cs : Bytes) (files : Files)
      → opens (temporary (c ∷ cs)) ≡ true
      → save_cfg fl opens cfg (c ∷ cs) files (c ∷ cs) ≡ some (print fl cfg)
  unfolding save_cfg rename
  saved cfg c cs files can =
      let file = c ∷ cs in
      ground (arith, temporary_differs file, bytes_eq_refl file, bytes_eq_refl (temporary file))

  -- With the empty path the new file stays below its temporary name.
  pub saved_nowhere :
      (cfg : Json F) (files : Files)
      → opens (temporary []) ≡ true
      → save_cfg fl opens cfg [] files (temporary []) ≡ some (print fl cfg)
  unfolding save_cfg rename
  saved_nowhere cfg files can = ground (arith, bytes_eq_refl (temporary []))

  read_back :
      (cfg : Json F) (file : Bytes) (files : Files)
      → IsPrintable cfg
      → files file ≡ some (print fl cfg)
      → cfg_read_file fl file files ≡ value cfg
  unfolding cfg_read_file
  read_back cfg file files p there =
      let whole =
        sectors-NoNul (length (print fl cfg)) (print fl cfg) (print-NoNul fl cfg p) (omega arith) in
      rw (cfg_read_file, there, whole, cfg_read_str-print fl cfg p) refl

  -- What `saveCfg` leaves in a file with a name, that can be written, is read by `cfgReadFile` as the same
  -- configuration, for every one that `toString` prints without loss.
  pub cfg_read_file-save_cfg :
      (cfg : Json F) (file : Bytes) (files : Files)
      → IsPrintable cfg
      → 1 ≤ length file
      → opens (temporary file) ≡ true
      → cfg_read_file fl file (save_cfg fl opens cfg file files) ≡ value cfg
  cfg_read_file-save_cfg cfg [] files p named can = absurd (omega arith)
  cfg_read_file-save_cfg cfg (c ∷ cs) files p named can =
      read_back cfg (c ∷ cs) _ p (saved cfg c cs files can)
