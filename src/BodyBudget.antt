-- ===== src/BodyBudget.antt =====
-- product/src/transport/body_budget.rs: reading a request's body within a budget of bytes that all
-- requests share. The semaphore, of a third-party package, is a type `S` with what the code calls:
-- `try_acquire` takes a number of permits, `release` gives them back when they are dropped.
pub mod Held
use deskquota.Common.{
  List, Option, [], if◌then◌else◌, length, ltb, none, some, ℕ, ◌++◌, ◌+◌, ◌-◌, ◌∷◌,
}

abbrev pub total_stored_limit : ℕ
total_stored_limit = 33554432

abbrev pub per_request_limit : ℕ
per_request_limit = 8388608

abbrev pub max_u32 : ℕ
max_u32 = 4294967295

-- What `incoming.frame()` gives: data, a frame of another kind, or an error.
pub data Frame : Type 0 where
  chunk : List ℕ → Frame
  other : Frame
  broken : Frame

pub data BodyReadError : Type 0 where
  too_large memory_full read : BodyReadError

-- The bytes of a body and the permits that it holds, or an error.
pub data BodyRead : Type 0 where
  budgeted : List ℕ → Option ℕ → BodyRead
  failed : BodyReadError → BodyRead

module _ {S : Type 0} (try_acquire : S → ℕ → Option S) (release : S → ℕ → S) where
  -- The permit is dropped.
  abbrev pub give_back : S → Option ℕ → S
  give_back s none = s
  give_back s (some n) = release s n

  abbrev pub merged : Option ℕ → ℕ → Option ℕ
  merged none n = some n
  merged (some k) n = some (k + n)

  abbrev pub take_permits :
      S → Option ℕ → ℕ → (S → Option ℕ → S × BodyRead) → Option S → S × BodyRead
  take_permits s permit count rest none = (give_back s permit, failed memory_full)
  take_permits s permit count rest (some s') = rest s' (merged permit count)

  abbrev pub read_chunk :
      S → List ℕ → Option ℕ → List ℕ → (S → Option ℕ → S × BodyRead) → S × BodyRead
  read_chunk s bytes permit data_bytes rest =
      if ltb per_request_limit (length bytes + length data_bytes)
      then (give_back s permit, failed too_large)
      else if ltb max_u32 (length data_bytes)
      then (give_back s permit, failed too_large)
      else if ltb 0 (length data_bytes)
      then take_permits s permit (length data_bytes) rest (try_acquire s (length data_bytes))
      else rest s permit

  unfoldable pub read_frames : S → List ℕ → Option ℕ → List Frame → S × BodyRead
  read_frames s bytes permit [] = (s, budgeted bytes permit)
  read_frames s bytes permit (broken ∷ fs) = (give_back s permit, failed read)
  read_frames s bytes permit (other ∷ fs) = read_frames s bytes permit fs
  read_frames s bytes permit (chunk data_bytes ∷ fs) =
      read_chunk s bytes permit data_bytes (λ s' p. read_frames s' (bytes ++ data_bytes) p fs)

  unfoldable pub read_body : S → List Frame → S × BodyRead
  unfolding read_frames
  read_body s fs = read_frames s [] none fs

-- The bytes that are stored, by the permits that are free.
abbrev pub stored_bytes : ℕ → ℕ
stored_bytes available_permits = total_stored_limit - available_permits
