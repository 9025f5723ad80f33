-- ===== src/Jobs/Logs.antt =====
-- The log buffers of jobs: internal/joblet/adapters/log_buffer.go. A chunk is the list of its bytes;
-- the copies that keep callers apart are the values themselves.
use joblet.Prelude.{
  ℕ, ◌+◌, Option, none, some, String, List, [], ◌∷◌, ◌++◌, length, drop, leb, if◌then◌else◌,
}
use joblet.Prelude.Map.{Map}
use joblet.Prelude.Map

abbrev pub Chunk : Type 0
Chunk = List ℕ

-- SimpleLogBuffer's data
abbrev pub LogBuffer : Type 0
LogBuffer = List Chunk

-- SimpleLogManager's buffers
abbrev pub LogManager : Type 0
LogManager = Map LogBuffer

-- Write
unfoldable pub write : LogBuffer → Chunk → LogBuffer
write b chunk = b ++ (chunk ∷ [])

-- ReadAfterSkip
unfoldable pub read_after_skip : LogBuffer → ℕ → List Chunk
read_after_skip b skip_count = if leb (length b) skip_count then [] else drop skip_count b

-- Clear
unfoldable pub clear : LogBuffer → LogBuffer
clear b = []

-- GetBuffer: the manager afterwards and the buffer
unfoldable pub get_buffer : LogManager → String → LogManager × LogBuffer
get_buffer m job = elim (Map.get m job) [ none ↦ (Map.put m job [], []) | some b ↦ (m, b) ]

-- RemoveBuffer
unfoldable pub remove_buffer : LogManager → String → LogManager × Option LogBuffer
remove_buffer m job = elim (Map.get m job) [
  | none ↦ (m, none)
  | some b ↦ (Map.remove m job, some b)
]

-- The sum over the buffers of Stats
unfoldable pub chunks : List LogBuffer → ℕ
chunks [] = 0
chunks (b ∷ bs) = length b + chunks bs

-- SimpleLogStats
pub record LogStats : Type 0 where
  pub active_buffers : ℕ
  pub total_chunks : ℕ

-- Stats
unfoldable pub stats : LogManager → LogStats
unfolding chunks
stats m = record { active_buffers = length m; total_chunks = chunks (Map.values m) }
