-- ===== src/Vm/Entered.antt =====
-- vm.c: the table of a loaded engine.
use kernel_wasm.Base.{
  ℕ, zero, suc, ◌+◌, ◌*◌, ◌<◌, ◌≤◌, ◌≡◌, refl, ◌≢◌, ◌∙◌, inl, inr, true, none, some, arith, ◌==◌,
  if◌then◌else◌, u64, Bool-cases, Option, Option-cases,
}
use kernel_wasm.Kapi.Info.{ImportInfo}
use kernel_wasm.Kapi.Registry.{Registry}
use kernel_wasm.Kernel.{Kernel, World, virt, call_alloc, TableEntryRequest}
use kernel_wasm.Vm.Engine.{Engine, LoadCodeRequest, Anyfunc}
use kernel_wasm.Vm.Init.{
  init_body, init_code, init_memory, init_globals, init_imports, init_sigindices, table_loop,
  init_table, init_stack,
}
use kernel_wasm.Vm.Load.{init_execution_engine}
use kernel_wasm.Vm.Setup.{Setup, go}
use kernel_wasm.Vm.Triple.{Triple, Triple-then, AnyEngine, any, load_leaves}

-- The entry was read from the request: the signature, and the place in the code, or NULL for -1.
pub record IsEntered (os : Kernel) (request : LoadCodeRequest) (i code : ℕ) (entry : Anyfunc)
    : Type 0 where
  pub read_in : World
  pub asked : TableEntryRequest
  pub was_read : os.table_entry_request read_in (request.table + 16 * i) ≡ some asked
  pub func :
      entry.func ≡ (if asked.offset == 0xffff_ffff_ffff_ffff then 0 else u64 (code + asked.offset))
  pub sig_id : entry.sig_id ≡ asked.sig_id

-- The entry of the engine, in a table of the size that was asked for.
pub record HasEntry (os : Kernel) (request : LoadCodeRequest) (i : ℕ) (ee : Engine) : Type 0 where
  pub present : ee.has_tables ≡ true
  pub count : ee.table_count ≡ request.table_count
  pub entry : IsEntered os request i ee.code (ee.table i)

module _ (os : Kernel) (request : LoadCodeRequest) (code : ℕ) (w : World) where
  -- A round of the loop leaves what earlier rounds wrote.
  table_loop-below :
      (left i : ℕ) (table : ℕ → Anyfunc) (j : ℕ)
      → j < i
      → (table_loop os request code w left i table).1 j ≡ table j
  unfolding table_loop
  table_loop-below zero i table j lt = refl
  table_loop-below (suc left) i table j lt =
      elim (Option-cases (os.table_entry_request w (request.table + 16 * i))) [
        | inl fault ↦ rw (fault, table_loop) refl
        | inr (req, e) ↦
            rw (e, table_loop) (table_loop-below left (suc i) _ j (omega arith) ∙ ground arith)
      ]

  table_loop-IsEntered :
      (left i : ℕ) (table : ℕ → Anyfunc) (j : ℕ)
      → i ≤ j
      → j < i + left
      → (table_loop os request code w left i table).0 ≡ none
      → IsEntered os request j code ((table_loop os request code w left i table).1 j)
  unfolding table_loop
  table_loop-IsEntered zero i table j le lt h = absurd (omega arith)
  table_loop-IsEntered (suc left) i table j le lt h =
      elim (Option-cases (os.table_entry_request w (request.table + 16 * i))) [
        | inl fault ↦ absurd (ground (arith, rw (fault, table_loop) at h))
        | inr (req, e) ↦
            rw (e, table_loop)
              (elim (Bool-cases (j == i)) [
                | inl same ↦
                    let at : j ≡ i = ground arith in
                    rw at (record {
                      read_in = w;
                      asked = req;
                      was_read = e;
                      func = rw (table_loop-below left (suc i) _ i (omega arith)) (ground arith);
                      sig_id = rw (table_loop-below left (suc i) _ i (omega arith)) (ground arith);
                    })
                | inr other ↦
                    table_loop-IsEntered left (suc i) _ j (ground arith) (omega arith)
                      (rw (e, table_loop) at h)
              ])
      ]

module _ (os : Kernel) (request : LoadCodeRequest) where
  abbrev looped : Setup → Option ℕ × (ℕ → Anyfunc)
  looped s =
      table_loop os request s.ee.code (call_alloc os virt (24 * request.table_count) s.world).1
        request.table_count 0 s.ee.table

  init_table-loop :
      (s : Setup)
      → request.table ≢ 0
      → request.table_count ≢ 0
      → (init_table os request s).0 ≡ go tt
      → ((looped s).0 ≡ none)
        × ((init_table os request s).1.ee.table ≡ (looped s).1)
        × ((init_table os request s).1.ee.code ≡ s.ee.code)
        × ((init_table os request s).1.ee.has_tables ≡ true)
        × ((init_table os request s).1.ee.table_count ≡ request.table_count)
  unfolding init_table
  init_table-loop s used counted h = ground arith

  module _ (i : ℕ) where
    init_table-HasEntry :
        request.table ≢ 0
        → i < request.table_count
        → Triple AnyEngine (init_table os request) (HasEntry os request i)
    init_table-HasEntry used within = record {
      leaves = λ s r h.
          let (fine, same, code, present, count) = init_table-loop s used (omega arith) h in
          record {
            present = present;
            count = count;
            entry =
                rw (same, code)
                  (table_loop-IsEntered os request s.ee.code
                    (call_alloc os virt (24 * request.table_count) s.world).1 request.table_count 0
                    s.ee.table i (omega arith) (omega arith) fine);
          };
    }

    stack-same :
        (s : Setup)
        → ((init_stack os request s).1.ee.table ≡ s.ee.table)
          × ((init_stack os request s).1.ee.code ≡ s.ee.code)
          × ((init_stack os request s).1.ee.has_tables ≡ s.ee.has_tables)
          × ((init_stack os request s).1.ee.table_count ≡ s.ee.table_count)
    unfolding init_stack
    stack-same s = ground arith

    init_stack-HasEntry :
        Triple (HasEntry os request i) (init_stack os request) (HasEntry os request i)
    init_stack-HasEntry = record {
      leaves = λ s e h.
          let (table, code, present, count) = stack-same s in
          record {
            present = present ∙ e.present;
            count = count ∙ e.count;
            entry = rw (table, code) e.entry;
          };
    }

    body-HasEntry :
        (info : ImportInfo ℕ)
        → request.table ≢ 0
        → i < request.table_count
        → Triple AnyEngine (init_body os request info) (HasEntry os request i)
    unfolding init_body
    body-HasEntry info used within = Triple-then (any (init_code os request)) (
        Triple-then (any (init_memory os request)) (
          Triple-then (any (init_globals os request)) (
            Triple-then (any (init_imports os request info)) (
              Triple-then (any (init_sigindices os request))
                (Triple-then (init_table-HasEntry used within) init_stack-HasEntry)))))

-- When `init_execution_engine` returns 0 for a request with a table, the engine has a table of just the
-- size asked for, and each of its entries was read from the request: it has the signature that was read,
-- and its function is NULL for the offset -1 and otherwise the code's address plus the offset, wherever
-- that is.
pub init_execution_engine-HasEntry :
    (os : Kernel) (g : Registry) (info : ImportInfo ℕ) (request : LoadCodeRequest) (ee : Engine)
    (w : World) (i : ℕ)
    → request.table ≢ 0
    → i < request.table_count
    → (init_execution_engine os g info request ee w).err ≡ 0
    → HasEntry os request i (init_execution_engine os g info request ee w).ee
init_execution_engine-HasEntry os g info request ee w i used within h =
    let (good, fine, has) =
      load_leaves os request (HasEntry os request i) g info ee w
        (λ good. record {
          leaves = λ s e done. (body-HasEntry os request i info used within).leaves s tt done;
        })
        h in
    has
