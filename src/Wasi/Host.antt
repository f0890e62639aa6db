-- ===== src/Wasi/Host.antt =====
-- What wasi/ext.c works on: kernel memory, the positions of open files, and the calls into the
-- kernel, which is a parameter.
use kernel_wasm.Base.{
  ℕ, ◌+◌, ◌/◌, ◌^◌, ◌≤◌, ◌<◌, ◌≡◌, ◌⊎◌, Ram, List, ◌∷◌, put_byte, put_word, get_word, update, u32,
  ◌>>◌,
}

-- A call into the kernel that the host functions make, with the result that its user keeps.
pub data Event : Type 0 where
  got : (file : ℕ) → Event  -- `fget` returned it
  put : (file : ℕ) → Event  -- `fput`
  wrote : (file buf len pos ret : ℕ) → Event  -- `kernel_write` returned `ret`
  read : (file buf len pos ret : ℕ) → Event  -- `kernel_read` returned `ret`
  closed : (fd : ℕ) → Event  -- `__close_fd`

-- Files are addresses of `struct file`, 0 for NULL. The last event stands first.
pub record World : Type 0 where
  pub ram : Ram
  pub f_pos : ℕ → ℕ
  pub log : List Event

-- The kernel's part. A result may depend on all that happened. `kernel_write` returns a result and
-- the new position; `kernel_read` the memory too.
pub record Files : Type 0 where
  pub fget : World → (fd : ℕ) → ℕ
  pub kernel_write : World → (file buf len pos : ℕ) → ℕ × ℕ
  pub kernel_read : World → (file buf len pos : ℕ) → ℕ × ℕ × Ram
  pub close_fd : World → (fd : ℕ) → ℕ

-- `kernel_read` changes no byte outside the buffer that it is given.
pub record IsLawful (os : Files) : Type 0 where
  pub within :
      (w : World) (file buf len pos a : ℕ)
      → (a < buf) ⊎ (buf + len ≤ a)
      → (os.kernel_read w file buf len pos).2 a ≡ w.ram a

-- A host function in that world.
abbrev pub M : Type 0 → Type 0
M A = World → A × World

-- Stores of one byte, of a `uint32_t` and of a `uint64_t`, and a load of a `uint32_t`.
abbrev pub store8 : (p v : ℕ) → M (Unit {0})
store8 p v w = (tt, record w { ram = put_byte w.ram p v })

abbrev pub store32 : (p v : ℕ) → M (Unit {0})
store32 p v w = (tt, record w { ram = put_word w.ram p v })

abbrev pub store64 : (p v : ℕ) → M (Unit {0})
store64 p v = do store32 p v; store32 (p + 4) (v / 2 ^ 32)

abbrev pub load32 : (p : ℕ) → M ℕ
load32 p w = (get_word w.ram p, w)

abbrev pub emit : Event → M (Unit {0})
emit e w = (tt, record w { log = e ∷ w.log })

-- `file_pos_read` and `file_pos_write`.
abbrev pub file_pos_read : (file : ℕ) → M ℕ
file_pos_read f w = (w.f_pos f, w)

abbrev pub file_pos_write : (file pos : ℕ) → M (Unit {0})
file_pos_write f pos w = (tt, record w { f_pos = update w.f_pos f pos })

module _ (os : Files) where
  abbrev pub fget : (fd : ℕ) → M ℕ
  fget fd w = let f = os.fget w fd in (f, record w { log = Event.got f ∷ w.log })

  abbrev pub fput : (file : ℕ) → M (Unit {0})
  fput f = emit (Event.put f)

  abbrev pub close_fd : (fd : ℕ) → M ℕ
  close_fd fd w = (os.close_fd w fd, record w { log = Event.closed fd ∷ w.log })

  -- The result of `kernel_write` and `kernel_read` is kept as an `int`.
  abbrev pub kernel_write : (file buf len pos : ℕ) → M (ℕ × ℕ)
  kernel_write f buf len pos w =
      let r = os.kernel_write w f buf len pos in
      let ret = u32 r.0 in ((ret, r.1), record w { log = Event.wrote f buf len pos ret ∷ w.log })

  abbrev pub kernel_read : (file buf len pos : ℕ) → M (ℕ × ℕ)
  kernel_read f buf len pos w =
      let r = os.kernel_read w f buf len pos in
      let ret = u32 r.0 in
      ((ret, r.1), record w { ram = r.2; log = Event.read f buf len pos ret ∷ w.log })
