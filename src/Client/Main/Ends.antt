-- ===== src/Client/Main/Ends.antt =====
-- src/client.cpp: the loop of `main` over the files and targets ends.
use instant_send.Prelude.{
  ℕ, zero, suc, ◌≤◌, ◌≡◌, refl, Bool, true, false, List, [], ◌∷◌, Option, none, some, if◌then◌else◌,
  arith, Bytes, codes, length,
}
use instant_send.Json.Syntax.{Items}
use instant_send.Json.Float.{FloatOps}
use instant_send.Json.Loader.{bytes_eq}
use instant_send.Json.Cast.{Attempt, value, raised, endless}
use instant_send.Plugins.{Call, back, throws, blocks}
use instant_send.Client.{Way, chosen, no_way, hangs}
use instant_send.Client.Entry.{Reaction, Walk, went, stopped, spins, overwrote}
use instant_send.Client.Main.{
  Client, Exit, Round, goes, ends, skip_target, World, assign, next_round, take_ways, fail_target,
  take_way, take_target, after_walk, send_path, take_file, take, serve,
}

-- What goes on has no more arguments than there were.
data Fewer (n : ℕ) : Round → Type 0 where
  fewer : {c : Client} {more : List Bytes} → length more ≤ n → Fewer n (goes c more)
  over : {e : Exit} → Fewer n (ends e)

length-skip_target : (args : List Bytes) → length (skip_target args) ≤ length args
unfolding skip_target
length-skip_target [] = omega arith
length-skip_target (a ∷ []) = omega arith
length-skip_target (a ∷ b ∷ rest) = ground (arith, length-skip_target (b ∷ rest))

Fewer-if : {n : ℕ} (b : Bool) {x y : Round} → Fewer n x → Fewer n y → Fewer n (if b then x else y)
Fewer-if true hx hy = hx
Fewer-if false hx hy = hy

fail_target-Fewer : (c : Client) (args : List Bytes) → Fewer (length args) (fail_target c args)
unfolding fail_target
fail_target-Fewer c args = fewer (length-skip_target args)

assign-Fewer :
    {n : ℕ} (c : Client) (name : Option Bytes) (rs : List Reaction) (rest : List Bytes)
    (call : Call)
    → length rest ≤ n
    → Fewer n (assign c name rs rest call)
unfolding assign
assign-Fewer c name rs rest (back t) le = fewer le
assign-Fewer c name rs rest (throws t) le = over
assign-Fewer c name rs rest blocks le = over

after_walk-Fewer :
    {n : ℕ} (c : Client) (target : Bytes) (rest : List Bytes) (w : Walk)
    → length rest ≤ n
    → Fewer n (after_walk c target rest w)
unfolding after_walk
after_walk-Fewer c target rest (went log rs) le = fewer le
after_walk-Fewer c target rest (stopped e log) le = over
after_walk-Fewer c target rest spins le = over
after_walk-Fewer c target rest (overwrote log) le = over

module _ {F : Type 0} (fl : FloatOps F) (world : World F) where
  take_way-Fewer :
      (c : Client) (target : Bytes) (rest : List Bytes) (ways : Items F) (w : Way)
      → Fewer (length (target ∷ rest)) (take_way fl world c target rest ways w)
  unfolding take_way
  take_way-Fewer c target rest ways (chosen i s) = assign-Fewer _ _ _ rest _ (omega arith)
  take_way-Fewer c target rest ways (no_way s) = fail_target-Fewer _ (target ∷ rest)
  take_way-Fewer c target rest ways hangs = over

  take_ways-Fewer :
      (c : Client) (target : Bytes) (rest : List Bytes) (ways : Attempt (Items F))
      → Fewer (length (target ∷ rest)) (take_ways fl world c target rest ways)
  unfolding take_ways
  take_ways-Fewer c target rest (value ways) = take_way-Fewer c target rest ways _
  take_ways-Fewer c target rest (raised e) = fail_target-Fewer c (target ∷ rest)
  take_ways-Fewer c target rest endless = over

  send_path-Fewer :
      (c : Client) (target : Bytes) (rest : List Bytes) (fn : Bytes) (at : Option ℕ)
      (o : Option Bytes)
      → Fewer (suc (length rest)) (send_path fl world c target rest fn at o)
  unfolding send_path
  send_path-Fewer c target rest fn (some at) (some plugin) =
      after_walk-Fewer c target rest _ (omega arith)
  send_path-Fewer c target rest fn (some at) none = over
  send_path-Fewer c target rest fn none o = over

  take_file-Fewer :
      (c : Client) (fn : Bytes) (rest : List Bytes) (o trimmed : Option Bytes)
      → Fewer (suc (length rest)) (take_file fl world c fn rest o trimmed)
  unfolding take_file
  take_file-Fewer c fn rest none trimmed = fewer (omega arith)
  take_file-Fewer c fn rest (some target) none = over
  take_file-Fewer c fn rest (some target) (some path) = send_path-Fewer c target rest path _ _

  take-Fewer :
      (c : Client) (a b : Bytes) (rest : List Bytes)
      → Fewer (suc (length rest)) (take fl world c a b rest)
  unfolding take take_target
  take-Fewer c a b rest =
      Fewer-if (bytes_eq a (codes "-t")) (take_ways-Fewer _ b rest _)
        (Fewer-if (bytes_eq a (codes "-f")) (take_file-Fewer c b rest _ _) (fewer (omega arith)))

  next_same :
      {k : ℕ} (n m : ℕ) (r : Round)
      → Fewer k r
      → ((c : Client) (more : List Bytes)
          → length more ≤ k
          → serve fl world n c more ≡ serve fl world m c more)
      → next_round (serve fl world n) r ≡ next_round (serve fl world m) r
  unfolding next_round
  next_same n m (goes c more) (fewer le) k = k c more le
  next_same n m (ends e) h k = refl

  serve_same :
      (n m : ℕ) (args : List Bytes) (c : Client)
      → length args ≤ n
      → length args ≤ m
      → serve fl world n c args ≡ serve fl world m c args
  unfolding serve
  serve_same n m [] c hn hm = refl
  serve_same n m (a ∷ []) c hn hm = refl
  serve_same zero m (a ∷ b ∷ rest) c hn hm = absurd (omega arith)
  serve_same (suc n) zero (a ∷ b ∷ rest) c hn hm = absurd (omega arith)
  serve_same (suc n) (suc m) (a ∷ b ∷ rest) c hn hm =
      next_same n m (take fl world c a b rest) (take-Fewer c a b rest)
        λ d more le. serve_same n m more d (omega arith) (omega arith)

  -- The loop over the targets and files ends: more fuel than there are arguments makes no difference.
  serve_enough :
      (args : List Bytes) (c : Client) (fuel : ℕ)
      → length args ≤ fuel
      → serve fl world fuel c args ≡ serve fl world (length args) c args
  serve_enough args c fuel le = serve_same fuel (length args) args c le (omega arith)
