-- ===== src/Persist/Ownership.antt =====
-- Whose bytes a persisted buffer writes.
use minapp.Base.{ℕ, ◌*◌, ◌^◌, ◌<◌, ◌≡◌, true, List, take, length, if◌then◌else◌}
use minapp.Persist.{
  Source, object, persistent, pointer, mutable_buffer, const_buffer, container, pod, content,
}

-- The bytes that are to be written of a source, `n` of them at most; a pointer has `n` elements.
-- An `object`, a `const_buffer`, a container that does not own its bytes, and a persistent buffer
-- made of one of these leave them where they are, and so depend on what has come to stand there.
abbrev pub meant : Source → ℕ → List ℕ → List ℕ
meant (object holds_type value) n outside = take n (take (length value) outside)
meant (persistent buf) n outside = take n (content buf outside)
meant (pointer size_of memory) n outside = take (n * size_of) memory
meant (mutable_buffer value) n outside = take n value
meant (const_buffer value) n outside = take n (take (length value) outside)
meant (container owning value) n outside =
    take n (if owning then value else take (length value) outside)
meant (pod value) n outside = take n value

-- The object is of the type that is asked for; there is something to copy to an array.
abbrev pub IsAllowed : Source → ℕ → Type 0
IsAllowed (object holds_type value) n = holds_type ≡ true
IsAllowed (persistent buf) n = Unit
IsAllowed (pointer size_of memory) n = (0 < n) × (n < 2 ^ 63) × (n * size_of < 2 ^ 64)
IsAllowed (mutable_buffer value) n = (0 < n) × (0 < length value) × (length value < 2 ^ 63)
IsAllowed (const_buffer value) n = Unit
IsAllowed (container owning value) n = Unit
IsAllowed (pod value) n = Unit
