-- ===== src/Uapi/Ioctl/Lifetime.antt =====
-- From `wd_open` to `wd_release`, over any commands of `wd_ioctl`, runs that grow the memory included.
use kernel_wasm.Base.{
  ℕ, ◌+◌, ◌%◌, ◌≡◌, ◌≢◌, ◌⊎◌, inl, inr, Bool, true, false, if◌then◌else◌, some, List, [], ◌∷◌,
  arith, ◌==◌, Bool-cases, Option, none, Option-cases, neg,
}
use kernel_wasm.Kapi.Info.{ImportInfo}
use kernel_wasm.Kapi.Negative.{AreNegative, get_module_resolver-negative}
use kernel_wasm.Kapi.Registry.{Registry}
use kernel_wasm.Kernel.{Kernel, Kind, World, page_size, einval}
use kernel_wasm.Kernel.Ledger.{hit-zero, Gained}
use kernel_wasm.Uapi.Ioctl.{
  Run, grow_all, run_code, wd_ioctl, ioctls, wasm_load_code, wasm_run_code, wasm_read_memory,
  wasm_write_memory,
}
use kernel_wasm.Uapi.Lifetime.{held, handle_wasm_load_code-Gained, wd_release-Gained}
use kernel_wasm.Uapi.Session.{
  Session, Requests, Handled, attempt, wd_open, handle_wasm_load_code, handle_wasm_read_memory,
  handle_wasm_write_memory,
}
use kernel_wasm.Vm.Engine.{Engine, LoadCodeRequest}
use kernel_wasm.Vm.Grow.{wasm_memory_grow}
use kernel_wasm.Vm.Grow.Lost.{unmapped, wasm_memory_grow-Balances}
use kernel_wasm.Vm.Ledger.Life.{init-negative}
use kernel_wasm.Vm.Sized.{IsBacked, init_execution_engine-IsBacked}
use kernel_wasm.Uapi.Ioctl.Growth.{grow_all_lost, run_lost, ioctls_lost, wasm_memory_grow-IsBacked}

-- The engine of a ready session has its memory backed.
abbrev pub WellHeld : Session → Type 0
WellHeld s = (s.ready ≡ false) ⊎ ((s.ready ≡ true) × IsBacked s.ee)

-- The memories that are loaded are a multiple of the page size.
pub record Aligned (users : Requests) : Type 0 where
  pub aligned :
      (w : World) (arg : ℕ) (req : LoadCodeRequest)
      → users.load_code w arg ≡ some req
      → req.memory_len % page_size ≡ 0

module _ (os : Kernel) (kind : Kind) (p : ℕ) (used : p ≢ 0) (w₀ : World) where
  -- One growth keeps the account of the session, with what was lost.
  grow-held :
      (pages : ℕ) (s : Session) (w : World) (lost : ℕ)
      → s.ready ≡ true
      → IsBacked s.ee
      → Gained kind p w₀ w (held kind p s + lost)
      → Gained kind p w₀ (wasm_memory_grow os pages s.ee w).world (
          held kind p (record s { ee = (wasm_memory_grow os pages s.ee w).ee })
          + (lost + unmapped kind p w (wasm_memory_grow os pages s.ee w).world))
  grow-held pages s w lost ready b h =
      let balance = wasm_memory_grow-Balances os pages s.ee w kind p used b in ground arith

  grow_all-held :
      (grows : List ℕ) (s : Session) (w : World) (lost : ℕ)
      → s.ready ≡ true
      → IsBacked s.ee
      → Gained kind p w₀ w (held kind p s + lost)
      → ((grow_all os grows s w).0.ready ≡ true)
        × IsBacked (grow_all os grows s w).0.ee
        × Gained kind p w₀
            (grow_all os grows s w).1
            (held kind p (grow_all os grows s w).0 + (lost + grow_all_lost os kind p grows s w))
  unfolding grow_all grow_all_lost
  grow_all-held [] s w lost ready b h = (ready, b, omega arith)
  grow_all-held (pages ∷ rest) s w lost ready b h =
      let g = wasm_memory_grow os pages s.ee w in
      let (still, backed, gained) =
        grow_all-held rest (record s { ee = g.ee }) g.world (lost + unmapped kind p w g.world) ready
          (wasm_memory_grow-IsBacked os pages s.ee w b) (grow-held pages s w lost ready b h) in
      (still, backed, omega arith)

module _ (os : Kernel) (users : Requests) (g : Registry) (info : ImportInfo ℕ) where
  attempt-WellHeld :
      (req : LoadCodeRequest) (s : Session) (w : World)
      → AreNegative g.resolvers
      → req.memory_len % page_size ≡ 0
      → s.ready ≡ false
      → WellHeld (attempt os g info req s w).session
  unfolding attempt
  attempt-WellHeld req s w negative whole idle = ground (
    arith,
    init-negative os g info req s.ee w (get_module_resolver-negative os g w negative),
    init_execution_engine-IsBacked os g info req s.ee w whole,
  )

  handle_wasm_load_code-WellHeld :
      (arg : ℕ) (s : Session) (w : World)
      → AreNegative g.resolvers
      → Aligned users
      → WellHeld s
      → WellHeld (handle_wasm_load_code os users g info arg s w).session
  unfolding handle_wasm_load_code
  handle_wasm_load_code-WellHeld arg s w negative al held =
      elim (Option-cases (users.load_code w arg)) [
        | inl fault ↦ ground arith
        | inr (req, e) ↦ ground (arith, attempt-WellHeld req s w negative (al.aligned w arg req e))
      ]

module _ (os : Kernel) (users : Requests) (runs : World → ℕ → Option Run) (g : Registry)
    (info : ImportInfo ℕ) (negative : AreNegative g.resolvers) (al : Aligned users) (kind : Kind)
    (p : ℕ) (used : p ≢ 0) (w₀ : World) where
  -- What a command leaves is in order, but for what was lost.
  abbrev InOrder : Handled → (lost : ℕ) → Type 0
  InOrder h lost = WellHeld h.session × Gained kind p w₀ h.world (held kind p h.session + lost)

  load_code-InOrder :
      (arg : ℕ) (s : Session) (w : World) (lost : ℕ)
      → WellHeld s
      → Gained kind p w₀ w (held kind p s + lost)
      → InOrder (handle_wasm_load_code os users g info arg s w) lost
  load_code-InOrder arg s w lost h a = (
    handle_wasm_load_code-WellHeld os users g info arg s w negative al h,
    handle_wasm_load_code-Gained os kind p used w₀ users g info arg s w lost negative a,
  )

  read_memory-InOrder :
      (arg : ℕ) (s : Session) (w : World) (lost : ℕ)
      → WellHeld s
      → Gained kind p w₀ w (held kind p s + lost)
      → InOrder (handle_wasm_read_memory os users arg s w) lost
  unfolding handle_wasm_read_memory
  read_memory-InOrder arg s w lost h a = ground arith

  write_memory-InOrder :
      (arg : ℕ) (s : Session) (w : World) (lost : ℕ)
      → WellHeld s
      → Gained kind p w₀ w (held kind p s + lost)
      → InOrder (handle_wasm_write_memory os users arg s w) lost
  unfolding handle_wasm_write_memory
  write_memory-InOrder arg s w lost h a = ground arith

  run_code-InOrder :
      (run : Option Run) (s : Session) (w : World) (lost : ℕ)
      → WellHeld s
      → Gained kind p w₀ w (held kind p s + lost)
      → InOrder (run_code os run s w) (lost + run_lost os kind p run s w)
  unfolding run_code run_lost
  run_code-InOrder none s w lost h a = (h, omega arith)
  run_code-InOrder (some r) s w lost h a =
      ground (arith, grow_all-held os kind p used w₀ r.grows s w lost)

  if-InOrder :
      (test : Bool) (h h' : Handled) (lost : ℕ)
      → InOrder h lost
      → InOrder h' lost
      → InOrder (if test then h else h') lost
  if-InOrder true h h' lost a b = a
  if-InOrder false h h' lost a b = b

  wd_ioctl-InOrder :
      (cmd arg : ℕ) (s : Session) (w : World) (lost : ℕ)
      → WellHeld s
      → Gained kind p w₀ w (held kind p s + lost)
      → InOrder
          (wd_ioctl os users runs g info cmd arg s w)
          (lost + (if cmd == wasm_run_code then run_lost os kind p (runs w arg) s w else 0))
  unfolding wd_ioctl
  wd_ioctl-InOrder cmd arg s w lost h a = elim (Bool-cases (cmd == wasm_run_code)) [
    | inl runs_code ↦
        let other : (cmd == wasm_load_code) ≡ false = ground arith in
        rw (other, runs_code) (run_code-InOrder (runs w arg) s w lost h a)
    | inr other ↦ rw other (
        let (well, gained) =
          if-InOrder (cmd == wasm_load_code) _ _ lost (load_code-InOrder arg s w lost h a) (
            if-InOrder (cmd == wasm_read_memory) _ _ lost (read_memory-InOrder arg s w lost h a) (
              if-InOrder (cmd == wasm_write_memory) _
                (record { ret = neg einval; session = s; world = w }) lost
                (write_memory-InOrder arg s w lost h a) (h, a))) in
        (well, omega arith))
  ]

  ioctls-Gained :
      (commands : List (ℕ × ℕ)) (s : Session) (w : World) (lost : ℕ)
      → WellHeld s
      → Gained kind p w₀ w (held kind p s + lost)
      → Gained kind p w₀
          (ioctls os users runs g info commands s w)
          (lost + ioctls_lost os users runs g info kind p commands s w)
  unfolding ioctls ioctls_lost
  ioctls-Gained [] s w lost h a =
      let gained = wd_release-Gained os kind p used w₀ s w lost a in omega arith
  ioctls-Gained ((cmd, arg) ∷ commands) s w lost h a =
      let d = wd_ioctl os users runs g info cmd arg s w in
      let here = if cmd == wasm_run_code then run_lost os kind p (runs w arg) s w else 0 in
      let (h', a') = wd_ioctl-InOrder cmd arg s w lost h a in
      let gained = ioctls-Gained commands d.session d.world (lost + here) h' a' in omega arith

-- Whatever `ioctl` calls a user process makes between `wd_open` and `wd_release`, with any command
-- numbers, and however often the code that it runs grows the memory, all that the session allocated is
-- freed, just once, but for the pages of a growth whose mapping fails, which are never freed: where the
-- registered resolvers report failures by negative numbers and the memories that are loaded are a
-- multiple of the page size.
pub ioctls_free_all :
    (os : Kernel) (users : Requests) (runs : World → ℕ → Option Run) (g : Registry)
    (info : ImportInfo ℕ) (size : ℕ) (uninit : Engine) (commands : List (ℕ × ℕ)) (s : Session)
    (w₀ : World) (kind : Kind) (p : ℕ)
    → AreNegative g.resolvers
    → Aligned users
    → p ≢ 0
    → (wd_open os size uninit w₀).0 ≡ some s
    → Gained kind p w₀
        (ioctls os users runs g info commands s (wd_open os size uninit w₀).1)
        (ioctls_lost os users runs g info kind p commands s (wd_open os size uninit w₀).1)
unfolding wd_open
ioctls_free_all os users runs g info size uninit commands s w₀ kind p negative al used e =
    let w = (wd_open os size uninit w₀).1 in
    let gained =
      ioctls-Gained os users runs g info negative al kind p used w₀ commands s w 0
        (inl (ground arith)) (ground (arith, hit-zero p)) in
    omega arith
