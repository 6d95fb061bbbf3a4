-- ===== src/Queue/Redis.antt =====
-- What the queue takes from redis-py and the server: the commands that it sends, and their documented
-- behaviour.
use txn_event_processor.Prelude.{
  some, ◌≤◌, ℕ, String, Option, none, Bool, List, [], ◌∷◌, ◌++◌, ◌≡◌, ◌≢◌, ◌⊎◌, true, false,
}
use txn_event_processor.Core.Errors.{Exn}
use txn_event_processor.Action.{Action, ok, err}
use txn_event_processor.Schemas.Envelope.{Fields}

-- An entry of a stream: its id and its fields.
abbrev pub Entry : Type 0
Entry = String × Fields

pub record GroupInfo : Type 0 where
  pub name : String
  pub lag : Option ℕ

pub record Redis (R : Type 0) : Type 0 where
  -- stream, fields, `maxlen`
  pub xadd : String → Fields → Option ℕ → Action R String
  -- stream, group, id
  pub xack : String → String → String → Action R (Unit {0})
  -- group, consumer, stream, count, block; the reply lists streams with their entries
  pub xreadgroup : String → String → String → ℕ → ℕ → Action R (List (String × List Entry))
  -- stream, group, consumer, min_idle_time, start_id, count; the reply is the next cursor, the claimed
  -- entries and the deleted ids
  pub xautoclaim :
      String → String → String → ℕ → String → ℕ → Action R (String × List Entry × List String)
  -- stream, group, min, max, count; the reply has `times_delivered` of each pending entry
  pub xpending_range : String → String → String → String → ℕ → Action R (List ℕ)
  -- stream, group, id, mkstream
  pub xgroup_create : String → String → String → Bool → Action R (Unit {0})
  pub xinfo_groups : String → Action R (List GroupInfo)
  pub ping : Action R (Unit {0})

-- The entry `i` is in the part of an XREADGROUP's reply for the one stream that was read.
abbrev pub IsListed : String → List Entry → Type 0
IsListed i [] = ⊥
IsListed i ((j, _) ∷ l) = (i ≡ j) ⊎ IsListed i l

abbrev pub IsGiven : String → List (String × List Entry) → Type 0
IsGiven i [] = ⊥
IsGiven i ((_, l) ∷ _) = IsListed i l

-- A bound on a stream's length that leaves room for an entry.
abbrev pub IsCap : Option ℕ → Type 0
IsCap none = Unit
IsCap (some n) = 1 ≤ n

-- `pending r s g i`: entry `i` is in stream `s`, has been delivered to group `g` and is not
-- acknowledged.
-- `entries r s`: the fields of the entries of stream `s`, oldest first.
pub record IsRedis {R : Type 0} (c : Redis R) (pending : R → String → String → String → Bool)
    (entries : R → String → List Fields) : Type 0 where
  -- an XADD without MAXLEN appends to its stream and drops nothing; after an error it may have
  -- appended or not
  pub xadd_ok :
      (s : String) (f : Fields) (r : R) (i : String)
      → (c.xadd s f none r).0 ≡ ok i
      → entries (c.xadd s f none r).1 s ≡ entries r s ++ f ∷ []
  pub xadd_err :
      (s : String) (f : Fields) (r : R) (e : Exn)
      → (c.xadd s f none r).0 ≡ err e
      → (entries (c.xadd s f none r).1 s ≡ entries r s)
        ⊎ (entries (c.xadd s f none r).1 s ≡ entries r s ++ f ∷ [])
  -- MAXLEN drops the oldest entries only
  pub xadd_last :
      (s : String) (f : Fields) (m : Option ℕ) (r : R) (i : String)
      → IsCap m
      → (c.xadd s f m r).0 ≡ ok i
      → (older : List Fields) × (entries (c.xadd s f m r).1 s ≡ older ++ f ∷ [])
  pub xadd_others :
      (s : String) (f : Fields) (m : Option ℕ) (r : R) (t : String)
      → t ≢ s
      → entries (c.xadd s f m r).1 t ≡ entries r t
  pub xadd_pending :
      (s : String) (f : Fields) (r : R) (t g i : String)
      → pending (c.xadd s f none r).1 t g i ≡ pending r t g i
  -- an XACK removes one entry from the pending list and no entry from any stream
  pub xack_ok :
      (s g i : String) (r : R)
      → (c.xack s g i r).0 ≡ ok tt
      → pending (c.xack s g i r).1 s g i ≡ false
  pub xack_others :
      (s g i j : String) (r : R) → j ≢ i → pending (c.xack s g i r).1 s g j ≡ pending r s g j
  pub xack_entries :
      (s g i : String) (r : R) (t : String) → entries (c.xack s g i r).1 t ≡ entries r t
  -- what a read or a claim hands out is pending from then on, and so stays what was pending
  pub xreadgroup_pending :
      (g k s : String) (n b : ℕ) (r : R) (i : String)
      → pending r s g i ≡ true
      → pending (c.xreadgroup g k s n b r).1 s g i ≡ true
  pub xreadgroup_gives :
      (g k s : String) (n b : ℕ) (r : R) (reply : List (String × List Entry)) (i : String)
      → (c.xreadgroup g k s n b r).0 ≡ ok reply
      → IsGiven i reply
      → pending (c.xreadgroup g k s n b r).1 s g i ≡ true
  pub xreadgroup_entries :
      (g k s : String) (n b : ℕ) (r : R) (t : String)
      → entries (c.xreadgroup g k s n b r).1 t ≡ entries r t
  pub xautoclaim_pending :
      (s g k : String) (m : ℕ) (c0 : String) (n : ℕ) (r : R) (i : String)
      → pending r s g i ≡ true
      → pending (c.xautoclaim s g k m c0 n r).1 s g i ≡ true
  pub xautoclaim_entries :
      (s g k : String) (m : ℕ) (c0 : String) (n : ℕ) (r : R) (t : String)
      → entries (c.xautoclaim s g k m c0 n r).1 t ≡ entries r t
  -- looking at the pending list changes nothing of it
  pub xpending_range_pending :
      (s g a b : String) (n : ℕ) (r : R) (i : String)
      → pending (c.xpending_range s g a b n r).1 s g i ≡ pending r s g i
  pub xpending_range_entries :
      (s g a b : String) (n : ℕ) (r : R) (t : String)
      → entries (c.xpending_range s g a b n r).1 t ≡ entries r t
