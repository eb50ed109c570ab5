-- ===== src/Plugins/Used.antt =====
-- src/pluginlist.cpp, src/plugin.h: what every operation on plugins keeps.
use instant_send.Prelude.{
  ◌+◌, ◌≤◌, ◌≡◌, refl, sym, ◌∙◌, ap, Bool, true, false, List, Option, none, some, arith, Bytes,
  Bool-cases, inl, inr, if◌then◌else◌,
}
use instant_send.Json.Loader.{bytes_eq}
use instant_send.Json.Equal.{bytes_eq_refl, bytes_eq-eq}
use instant_send.Plugins.{
  Handle, Plugins, Call, back, throws, blocks, put, add_instance, inc_rc, dec_rc, is_unloadable,
  check_unload, release, plugin_at, as_creator, load_plugin, counted,
}

module _ (try_load : Bytes → Option Bool) (extension : Bytes) (paths : List Bytes) where
  -- A handle in the list is of a library that can be loaded, and something refers to it.
  abbrev pub Used : Bytes → Handle → Type 0
  Used name h =
      (load_plugin try_load extension paths name ≡ some (h.connects))
      × (1 ≤ h.ref_cnt + h.instances)

  -- No lock is held, and every handle is used.
  abbrev pub Ready : Plugins → Type 0
  Ready s = (s.locked ≡ false) × ((n : Bytes) (h : Handle) → s.storage n ≡ some h → Used n h)

  -- The same of every other name.
  abbrev ReadyBut : Bytes → Plugins → Type 0
  ReadyBut name s =
      (s.locked ≡ false)
      × ((n : Bytes) (h : Handle) → bytes_eq n name ≡ false → s.storage n ≡ some h → Used n h)

  pub put-ReadyBut :
      (name : Bytes) (o : Option Handle) (s : Plugins)
      → ReadyBut name s
      → ReadyBut name (put name o s)
  put-ReadyBut name o s (free, used) = (free, λ n h q e. used n h q (ground arith))

  pub put-Ready :
      (name : Bytes) (o : Option Handle) (s : Plugins)
      → ((h : Handle) → o ≡ some h → Used name h)
      → ReadyBut name s
      → Ready (put name o s)
  put-Ready name o s good (free, used) = (
    free,
    λ n h e. elim (Bool-cases (bytes_eq n name)) [
      | inl q ↦ rw (bytes_eq-eq n name q) (good h (ground arith))
      | inr q ↦ used n h q (ground arith)
    ],
  )

  pub but : (name : Bytes) (s : Plugins) → Ready s → ReadyBut name s
  but name s (free, used) = (free, λ n h q. used n h)

  dec_rc-Used :
      (name : Bytes) (h : Handle)
      → Used name h
      → is_unloadable (dec_rc h) ≡ false
      → (h2 : Handle) → some (dec_rc h) ≡ some h2
      → Used name h2
  dec_rc-Used name h u q h2 e = let same : h2 ≡ dec_rc h = cc in rw same (u.0, ground arith)

  check_unload-gone :
      (name : Bytes) (s : Plugins) (h : Handle)
      → s.locked ≡ false
      → s.storage name ≡ some h
      → is_unloadable h ≡ true
      → check_unload name s ≡ back (put name none s)
  unfolding check_unload
  check_unload-gone name s h free e q =
      ap
        (λ b. if b then blocks else elim (s.storage name) [
          | none ↦ back s
          | some x ↦ if is_unloadable x then back (put name none s) else back s
        ])
        free
      ∙ rw (e, q) refl

  pub release-Ready :
      (name : Bytes) (s : Plugins) (o : Option Handle)
      → s.storage name ≡ o
      → Ready s
      → (t : Plugins) × (release name s ≡ back t) × Ready t
  unfolding release check_unload
  release-Ready name s none e r = (s, rw (release, e) refl, r)
  release-Ready name s (some h) e r = elim (Bool-cases (is_unloadable (dec_rc h))) [
    | inl q ↦ (
      put name none (put name (some (dec_rc h)) s),
      rw (release, e, q) (check_unload-gone name _ (dec_rc h) r.0 (rw (bytes_eq_refl name) refl) q),
      put-Ready name none _ (λ h2 a. cc) (put-ReadyBut name _ s (but name s r)),
    )
    | inr q ↦ (
      put name (some (dec_rc h)) s,
      rw (release, e, q) refl,
      put-Ready name _ s (dec_rc-Used name h (r.1 name h e) q) (but name s r),
    )
  ]

  -- A handle with more references or instances is used.
  more-Used :
      (name : Bytes) (h h2 : Handle)
      → Used name h
      → h2.connects ≡ h.connects
      → 1 ≤ h2.ref_cnt + h2.instances
      → (h3 : Handle) → some h2 ≡ some h3
      → Used name h3
  more-Used name h h2 u c le h3 e = let same : h3 ≡ h2 = cc in rw same (u.0 ∙ ap some (sym c), le)

  -- `pl[pname]`, when no lock is held.
  abbrev at_free : Bytes → Plugins → Option Handle → Call
  at_free name s (some h) = back (put name (some (inc_rc h)) s)
  at_free name s none = elim (load_plugin try_load extension paths name) [
    | none ↦ throws (record s { locked = true })
    | some c ↦ back (put name (some (record { ref_cnt = 1; instances = 0; connects = c })) s)
  ]

  pub plugin_at-free :
      (name : Bytes) (s : Plugins)
      → s.locked ≡ false
      → (o : Option Handle) → s.storage name ≡ o
      → plugin_at try_load extension paths name s ≡ at_free name s o
  unfolding plugin_at
  plugin_at-free name s free none e =
      ap
        (λ b. if b then blocks else elim (s.storage name) [
          | some h ↦ back (put name (some (inc_rc h)) s)
          | none ↦ at_free name s none
        ])
        free
      ∙ rw e refl
  plugin_at-free name s free (some h) e =
      ap
        (λ b. if b then blocks else elim (s.storage name) [
          | some x ↦ back (put name (some (inc_rc x)) s)
          | none ↦ at_free name s none
        ])
        free
      ∙ rw e refl

  once-Used :
      (name : Bytes) (h : Handle) (c : Bool)
      → h ≡ record { ref_cnt = 1; instances = 0; connects = c }
      → load_plugin try_load extension paths name ≡ some c
      → Used name h
  once-Used name h c same l = rw same (l, omega arith)

  connects_same :
      (name : Bytes) (h : Handle) (c : Bool)
      → Used name h
      → load_plugin try_load extension paths name ≡ some c
      → h.connects ≡ c
  connects_same name h c u l = let e : some (h.connects) ≡ some c = sym u.0 ∙ l in cc

  -- What it gives of a plugin that can be loaded.
  pub plugin_at-Ready :
      (name : Bytes) (s : Plugins) (c : Bool) (o : Option Handle)
      → s.storage name ≡ o
      → Ready s
      → load_plugin try_load extension paths name ≡ some c
      → (t : Plugins) × (plugin_at try_load extension paths name s ≡ back t)
        × Ready t
        × ((h : Handle) × (t.storage name ≡ some h) × (h.connects ≡ c))
  plugin_at-Ready name s c none e r l =
      let fresh : Handle = record { ref_cnt = 1; instances = 0; connects = c } in
      (
        put name (some fresh) s,
        plugin_at-free name s r.0 none e ∙ rw (at_free, l) refl,
        put-Ready name _ s (λ h q. let same : h ≡ fresh = cc in once-Used name h c same l)
            (but name s r),
        (fresh, rw (bytes_eq_refl name) refl, refl),
      )
  plugin_at-Ready name s c (some h) e r l = (
    put name (some (inc_rc h)) s,
    plugin_at-free name s r.0 (some h) e,
    put-Ready name _ s (more-Used name h (inc_rc h) (r.1 name h e) refl (omega arith))
        (but name s r),
    (inc_rc h, rw (bytes_eq_refl name) refl, connects_same name h c (r.1 name h e) l),
  )

  pub as_creator-true :
      (name : Bytes) (s : Plugins) (h : Handle)
      → Ready s
      → s.storage name ≡ some h
      → h.connects ≡ true
      → (t : Plugins) × (as_creator name s ≡ back t) × Ready t
  unfolding as_creator
  as_creator-true name s h r e c = (
    put name (some (inc_rc h)) s,
    rw (as_creator, e, c) refl,
    put-Ready name _ s (more-Used name h (inc_rc h) (r.1 name h e) refl (omega arith))
        (but name s r),
  )

  pub as_creator-false :
      (name : Bytes) (s : Plugins) (h : Handle)
      → s.storage name ≡ some h
      → h.connects ≡ false
      → as_creator name s ≡ throws s
  unfolding as_creator
  as_creator-false name s h e c = rw (as_creator, e, c) refl

  pub counted-Ready :
      (name : Bytes) (s : Plugins) (o : Option Handle)
      → s.storage name ≡ o
      → Ready s
      → Ready (counted name s)
  unfolding counted
  counted-Ready name s none e r = rw (counted, e) r
  counted-Ready name s (some h) e r =
      rw (counted, e)
        (put-Ready name _ s (more-Used name h (add_instance h) (r.1 name h e) refl (omega arith))
          (but name s r))
