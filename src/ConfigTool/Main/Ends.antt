-- ===== src/ConfigTool/Main/Ends.antt =====
-- src/configtool.cpp: how `main` ends.
use instant_send.Prelude.{
  ℕ, zero, suc, ◌≤◌, ◌≡◌, refl, Bool, true, false, Option, none, some, List, [], ◌∷◌, ◌++◌, arith,
  Bytes, length, codes, if◌then◌else◌,
}
use instant_send.Paths.{combine_path}
use instant_send.Json.Syntax.{Json}
use instant_send.Json.Float.{FloatOps}
use instant_send.Json.Cast.{Attempt, value, raised, endless, Thrown}
use instant_send.ConfigTool.Files.{Files, temporary}
use instant_send.ConfigTool.Saved.{saved, saved_nowhere}
use instant_send.ConfigTool.Main.Changes.{
  Stored, StoredIf, Change, shown, edited, named, made, loaded, Changes,
}
use instant_send.ConfigTool.Main.{
  saved_files, Tool, Exit, returned, uncaught, null_reference, endless_loop, Round, goes, ends,
  Flag, help_flag, init_client_flag, init_server_flag, targets_flag, groups_flag, export_flag,
  add_flag, way_flag, import_flag, com_plugin_flag, event_plugin_flag, client_flag, server_flag,
  config_flag, other_flag, flag_of, perform, round, run, change_cfg, after, with_cfg, show, edit,
  one, two, from_home, too_few, refuse, save_if, init_cfg,
}

-- What goes on has no more arguments than there were and a state that a change has led to, and a
-- `return` in the loop gives 1.
data Sound {F : Type 0} (fl : FloatOps F) (opens : Bytes → Bool) (t : Tool F) (rest : List Bytes)
    : Round F → Type 0 where
  fewer :
      {u : Tool F} {more : List Bytes}
      → (((p : Bytes) → opens p ≡ true) → Change fl t u)
      → length more ≤ length rest
      → Sound fl opens t rest (goes u more)
  code_one : {u : Tool F} → Sound fl opens t rest (ends (returned 1 u))
  throws : {e : Thrown} → Sound fl opens t rest (ends (uncaught e))
  null : Sound fl opens t rest (ends null_reference)
  loops : Sound fl opens t rest (ends endless_loop)

Sound-if :
    {F : Type 0} {fl : FloatOps F} {opens : Bytes → Bool} {t : Tool F} {rest : List Bytes}
    (b : Bool) {x y : Round F}
    → (b ≡ true → Sound fl opens t rest x)
    → (b ≡ false → Sound fl opens t rest y)
    → Sound fl opens t rest (if b then x else y)
Sound-if true hx hy = hx refl
Sound-if false hx hy = hy refl

module _ {F : Type 0} (fl : FloatOps F) (opens : Bytes → Bool) (homedir : Option Bytes)
    (t : Tool F) where
  one-Sound :
      (rest : List Bytes) (f : Bytes → List Bytes → Round F)
      → ((a : Bytes) (more : List Bytes)
          → length more ≤ length rest
          → Sound fl opens t rest (f a more))
      → Sound fl opens t rest (one fl opens homedir t rest f)
  unfolding one too_few
  one-Sound [] f h = code_one
  one-Sound (a ∷ rest) f h = h a rest (omega arith)

  two-Sound :
      (rest : List Bytes) (f : Bytes → Bytes → List Bytes → Round F)
      → ((a b : Bytes) (more : List Bytes)
          → length more ≤ length rest
          → Sound fl opens t rest (f a b more))
      → Sound fl opens t rest (two fl opens homedir t rest f)
  unfolding two too_few
  two-Sound [] f h = code_one
  two-Sound (a ∷ []) f h = code_one
  two-Sound (a ∷ b ∷ rest) f h = h a b rest (omega arith)

module _ {F : Type 0} (fl : FloatOps F) (opens : Bytes → Bool) (homedir : Option Bytes)
    (can : (p : Bytes) → opens p ≡ true) where
  saved_files-Stored :
      (c : Option (Json F)) (b : Bool) (path : Bytes) (files : Files)
      → StoredIf fl c b path files (saved_files fl opens homedir c b path files)
  unfolding StoredIf
  saved_files-Stored none b path files = refl
  saved_files-Stored (some c) true [] files = saved_nowhere fl opens c files (can (temporary []))
  saved_files-Stored (some c) true (a ∷ path) files =
      saved fl opens c a path files (can (temporary (a ∷ path)))
  saved_files-Stored (some c) false path files = refl

  save_if-Stored : (t : Tool F) → Stored fl t (save_if fl opens homedir t).files
  unfolding save_if
  save_if-Stored t = saved_files-Stored t.cfg t.save t.cfgpath t.files

module _ {F : Type 0} (fl : FloatOps F) (opens : Bytes → Bool) (homedir : Option Bytes)
    (rest : List Bytes) (t : Tool F) where
  after-Sound :
      {A : Type 0} (a : Attempt A) (f : A → Round F)
      → ((x : A) → a ≡ value x → Sound fl opens t rest (f x))
      → Sound fl opens t rest (after fl opens homedir a f)
  unfolding after
  after-Sound (value a) f h = h a refl
  after-Sound (raised e) f h = throws
  after-Sound endless f h = loops

  with_cfg-Sound :
      (f : Json F → Round F)
      → ((c : Json F) → Sound fl opens t rest (f c))
      → Sound fl opens t rest (with_cfg fl opens homedir t f)
  unfolding with_cfg
  with_cfg-Sound f h =
      elim (t.cfg)
        as (λ o. Sound fl opens t rest (elim o [ none ↦ ends null_reference | some c ↦ f c ])) [
          | none ↦ null
          | some c ↦ h c
        ]

  show-Sound :
      (more : List Bytes) (f : Json F → Attempt (List Bytes))
      → length more ≤ length rest
      → Sound fl opens t rest (show fl opens homedir t more f)
  unfolding show
  show-Sound more f le =
      with_cfg-Sound _ λ c. after-Sound (f c) _ λ ls e. fewer (λ can. shown (t.printed ++ ls)) le

  edit-Sound :
      (more : List Bytes) (f : Json F → Attempt (Json F × List Bytes))
      → length more ≤ length rest
      → Sound fl opens t rest (edit fl opens homedir t more f)
  unfolding edit
  edit-Sound more f le =
      with_cfg-Sound _
        λ c. after-Sound (f c) _ λ (c2, ls) e. fewer (λ can. edited c2 (t.printed ++ ls)) le

  init_cfg-Change :
      ((p : Bytes) → opens p ≡ true) → (c : Json F) → Change fl t (init_cfg fl opens homedir c t)
  unfolding init_cfg save_if
  init_cfg-Change can c = made c _ (save_if-Stored fl opens homedir can t)

  change_cfg-Sound :
      (path : Bytes) (more : List Bytes)
      → length more ≤ length rest
      → Sound fl opens t rest (change_cfg fl opens homedir path t more)
  unfolding change_cfg save_if
  change_cfg-Sound path more le =
      Sound-if t.load
        (λ load. after-Sound _ _ λ c read.
          fewer (λ can. loaded c path _ (save_if-Stored fl opens homedir can t) load read) le)
        (λ load. fewer (λ can. named path load) le)

  from_home-Sound : (name : Bytes) → Sound fl opens t rest (from_home fl opens homedir name t rest)
  unfolding from_home
  from_home-Sound name =
      elim homedir
        as (λ o. Sound fl opens t rest (elim o [
          | none ↦ refuse fl opens homedir t (codes "Config not found!")
          | some home ↦ change_cfg fl opens homedir (combine_path home name) t rest
        ])) [
          | none ↦ code_one
          | some home ↦ change_cfg-Sound (combine_path home name) rest (omega arith)
        ]

  perform-Sound : (flag : Flag) → Sound fl opens t rest (perform fl opens homedir flag t rest)
  unfolding perform
  perform-Sound help_flag = fewer (λ can. shown t.printed) (omega arith)
  perform-Sound init_client_flag = fewer (λ can. init_cfg-Change can _) (omega arith)
  perform-Sound init_server_flag = fewer (λ can. init_cfg-Change can _) (omega arith)
  perform-Sound targets_flag = show-Sound rest _ (omega arith)
  perform-Sound groups_flag = show-Sound rest _ (omega arith)
  perform-Sound export_flag = one-Sound fl opens homedir t rest _ λ a more le. show-Sound more _ le
  perform-Sound add_flag = one-Sound fl opens homedir t rest _ λ a more le. edit-Sound more _ le
  perform-Sound way_flag = two-Sound fl opens homedir t rest _ λ a b more le. edit-Sound more _ le
  perform-Sound import_flag = one-Sound fl opens homedir t rest _ λ a more le. edit-Sound more _ le
  perform-Sound com_plugin_flag =
      one-Sound fl opens homedir t rest _ λ a more le. edit-Sound more _ le
  perform-Sound event_plugin_flag =
      one-Sound fl opens homedir t rest _ λ a more le. edit-Sound more _ le
  perform-Sound client_flag = from_home-Sound (codes "client.cfg")
  perform-Sound server_flag = from_home-Sound (codes "server.cfg")
  perform-Sound config_flag =
      one-Sound fl opens homedir t rest _ λ a more le. change_cfg-Sound a more le
  perform-Sound other_flag = fewer (λ can. shown t.printed) (omega arith)

  round-Sound : (arg : Bytes) → Sound fl opens t rest (round fl opens homedir t arg rest)
  unfolding round
  round-Sound arg = perform-Sound (flag_of arg)

-- Behind a state, changes lead to one whose configuration is stored in the files at the end.
abbrev pub Ended : {F : Type 0} → FloatOps F → Tool F → Tool F → Type 0
Ended {F} fl first end =
    (t : Tool F) × Changes fl first t
    × Stored fl t end.files
    × (end ≡ record t { files = end.files })

module _ {F : Type 0} (fl : FloatOps F) (opens : Bytes → Bool) (homedir : Option Bytes) where
  run_step :
      (n m : ℕ) {t : Tool F} {rest : List Bytes} (r : Round F)
      → Sound fl opens t rest r
      → ((t : Tool F) (more : List Bytes)
          → length more ≤ length rest
          → run fl opens homedir n t more ≡ run fl opens homedir m t more)
      → elim r as (λ _. Exit F) [ goes t2 more ↦ run fl opens homedir n t2 more | ends e ↦ e ]
        ≡ elim r [ goes t2 more ↦ run fl opens homedir m t2 more | ends e ↦ e ]
  run_step n m (goes u more) (fewer change le) k = k u more le
  run_step n m (ends e) h k = refl

  run_same :
      (n m : ℕ) (args : List Bytes) (t : Tool F)
      → length args ≤ n
      → length args ≤ m
      → run fl opens homedir n t args ≡ run fl opens homedir m t args
  unfolding run
  run_same n m [] t hn hm = refl
  run_same zero m (arg ∷ rest) t hn hm = absurd (omega arith)
  run_same (suc n) zero (arg ∷ rest) t hn hm = absurd (omega arith)
  run_same (suc n) (suc m) (arg ∷ rest) t hn hm =
      run_step n m (round fl opens homedir t arg rest) (round-Sound fl opens homedir rest t arg)
        λ t2 more le. run_same n m more t2 (omega arith) (omega arith)

  -- The loop of `main` ends: more fuel than there are arguments makes no difference.
  run_enough :
      (args : List Bytes) (t : Tool F) (fuel : ℕ)
      → length args ≤ fuel
      → run fl opens homedir fuel t args ≡ run fl opens homedir (length args) t args
  run_enough args t fuel le = run_same fuel (length args) args t le (omega arith)
