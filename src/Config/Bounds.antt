-- ===== src/Config/Bounds.antt =====
-- pkg/config: the sizes that the environment can set.
use elastic_gpu_telemetry_pi.Common.{
  ℕ, ◌<◌, inl, inr, none, some, [], ◌∷◌, arith, Text, codes, is_empty, Bool-cases, Option,
}
use elastic_gpu_telemetry_pi.Config.{
  ℤ, pos, negsuc, atoi, positive_or, get_env, size_of, load_collector_config, load_queue_config,
  min_int64_magnitude,
}

-- A positive integer of 64 bits.
abbrev pub IsSize : ℕ → Type 0
IsSize n = (0 < n) × (n < min_int64_magnitude)

-- An integer that `strconv.Atoi` reads is one of 64 bits.
abbrev IsRead : Option ℤ → Type 0
IsRead (some (pos n)) = n < min_int64_magnitude
IsRead _ = Unit

atoi-IsRead : (s : Text) → IsRead (atoi s)
unfolding atoi
atoi-IsRead [] = tt
atoi-IsRead (c ∷ s) = ground arith

positive_or-IsSize : (n : ℕ) (r : Option ℤ) → IsSize n → IsRead r → IsSize (positive_or n r)
positive_or-IsSize n none h b = h
positive_or-IsSize n (some (negsuc m)) h b = h
positive_or-IsSize n (some (pos m)) h b = ground arith

size_of-IsSize : (env : Text → Text) (key : Text) (n : ℕ) → IsSize n → IsSize (size_of env key n)
unfolding size_of
size_of-IsSize env key n h = elim (Bool-cases (is_empty (get_env env key []))) [
  | inl e ↦ rw e h
  | inr e ↦
      rw e (positive_or-IsSize n (atoi (get_env env key [])) h (atoi-IsRead (get_env env key [])))
]

-- Whatever the environment, the collector's batch size and the queue's buffer size are positive and
-- fit into 64 bits.
pub load_config-IsSize :
    (env : Text → Text) (hostname pid : Text)
    → IsSize (load_collector_config env hostname pid).batch_size
      × IsSize (load_queue_config env).buffer_size
unfolding load_collector_config load_queue_config
load_config-IsSize env hostname pid = (
  size_of-IsSize env (codes "COLLECTOR_BATCH_SIZE") 1 (omega arith, omega arith),
  size_of-IsSize env (codes "QUEUE_BUFFER_SIZE") 1000 (omega arith, omega arith),
)
