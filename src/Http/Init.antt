-- ===== src/Http/Init.antt =====
-- `global_init` of src/http_client.cpp, called by any number of threads. One action is one access to what
-- they share: the flag, the mutex and libcurl.
pub mod Once
use audd_cpp.Prelude.{ℕ, Bool, true, false, Option, none, some, List, [], ◌∷◌, ◌==◌, if◌then◌else◌}

-- Where a thread is. A thread that has returned, or that has thrown, may call again.
pub data Pc : Type 0 where
  calling locking checking initialising storing leaving throwing returned thrown : Pc

-- `g_initialized`, the holder of `g_init_mutex`, where the threads are, and the calls of
-- `curl_global_init` so far, the last one first, with whether each gave CURLE_OK.
pub record Process : Type 0 where
  pub initialized : Bool
  pub holder : Option ℕ
  pub pc : ℕ → Pc
  pub calls : List Bool

abbrev pub begin : Process
begin = record { initialized = false; holder = none; pc = λ i. calling; calls = [] }

abbrev pub put : ℕ → Pc → (ℕ → Pc) → ℕ → Pc
put i p pc j = if i == j then p else pc j

abbrev pub goes : ℕ → Pc → Process → Process
goes i p s = record s { pc = put i p s.pc }

-- One action of thread `i`, which stands at `p`; `works` is what `curl_global_init` would give it.
unfoldable pub advance : Bool → ℕ → Pc → Process → Process
advance works i calling s = goes i (if s.initialized then returned else locking) s
advance works i locking s = elim s.holder [
  | none ↦ record s { holder = some i; pc = put i checking s.pc }
  | some other ↦ s
]
advance works i checking s = goes i (if s.initialized then leaving else initialising) s
advance works i initialising s = record s {
  calls = works ∷ s.calls;
  pc = put i (if works then storing else throwing) s.pc;
}
advance works i storing s = record s { initialized = true; pc = put i leaving s.pc }
advance works i leaving s = record s { holder = none; pc = put i returned s.pc }
advance works i throwing s = record s { holder = none; pc = put i thrown s.pc }
advance works i returned s = goes i calling s
advance works i thrown s = goes i calling s

-- The threads in the order of a schedule.
unfoldable pub schedule : List (ℕ × Bool) → Process → Process
unfolding advance
schedule [] s = s
schedule ((i, works) ∷ later) s = schedule later (advance works i (s.pc i) s)
