-- ===== src/Fakes/Queue.antt =====
-- A Redis with one entry to read: what is added is listed, what is pending is a list of ids.
use txn_event_processor.Prelude.{
  ℕ, true, Bool-cases, inl, inr, sym, String, Bool, false, List, [], ◌∷◌, ◌++◌, ◌≡◌, ◌≢◌, refl,
  arith, str_eq, eq_iff, if◌then◌else◌, ◌||◌,
}
use txn_event_processor.Action.{ok}
use txn_event_processor.Schemas.Envelope.{Fields}
use txn_event_processor.Queue.Redis.{Redis, IsRedis, Entry, IsGiven}
use mathlib.Core.Path.{subst}

pub record Streams : Type 0 where
  pub listed : String → List Fields
  pub unacked : List String
  pub has_new : Bool

-- The entry that a first read is given: `payment` of Site, as an envelope.
abbrev pub first_fields : Fields
first_fields =
    ("schema_version", "1")
    ∷ ("payload", "xex-x1.xux-x1.xExUxR..x1x9x9x9.x-x2.x4x3x2x0x0.x1.x0.x4x3x2x0x0.x1.x0.")
    ∷ []

abbrev pub is_in : String → List String → Bool
is_in i [] = false
is_in i (j ∷ l) = str_eq j i || is_in i l

abbrev pub remove : String → List String → List String
remove i [] = []
remove i (j ∷ l) = if str_eq j i then remove i l else j ∷ remove i l

abbrev pub server_pending : Streams → String → String → String → Bool
server_pending r s g i = is_in i r.unacked

abbrev pub server_entries : Streams → String → List Fields
server_entries r s = r.listed s

abbrev pub server : Redis Streams
server = record {
  xadd = λ s f m r. (
    ok "1-0",
    record r { listed = λ t. if str_eq t s then r.listed t ++ f ∷ [] else r.listed t },
  );
  xack = λ s g i r. (ok tt, record r { unacked = remove i r.unacked });
  xreadgroup = λ g k s n b r.
      if r.has_new
      then (
        ok ((s, ("1-1", first_fields) ∷ []) ∷ []),
        record r { unacked = "1-1" ∷ r.unacked; has_new = false },
      )
      else (ok [], r);
  xautoclaim = λ s g k m i n r.
      if is_in "1-1" r.unacked
      then (ok ("0-0", ("1-1", first_fields) ∷ [], []), r)
      else (ok ("0-0", [], []), r);
  xpending_range = λ s g a b n r. (ok (2 ∷ []), r);
  xgroup_create = λ s g i m r. (ok tt, r);
  xinfo_groups = λ s r. (ok [], r);
  ping = λ r. (ok tt, r);
}

is_in-remove : (i : String) (l : List String) → is_in i (remove i l) ≡ false
is_in-remove i [] = refl
is_in-remove i (j ∷ l) = ground (arith, is_in-remove i l)

is_in-remove_other : (i j : String) (l : List String) → j ≢ i → is_in j (remove i l) ≡ is_in j l
is_in-remove_other i j [] ne = refl
is_in-remove_other i j (k ∷ l) ne =
    ground (arith, eq_iff k i, eq_iff k j, is_in-remove_other i j l ne)

given_pending :
    (g k s : String) (n b : ℕ) (r : Streams) (reply : List (String × List Entry)) (i : String)
    → (server.xreadgroup g k s n b r).0 ≡ ok reply
    → IsGiven i reply
    → server_pending (server.xreadgroup g k s n b r).1 s g i ≡ true
given_pending g k s n b r reply i h given = elim (Bool-cases r.has_new) [
  | inl e ↦
      let q : ((s, ("1-1", first_fields) ∷ []) ∷ []) ≡ reply = ground arith in
      elim (subst (IsGiven i) (sym q) given) [
        | inl same ↦ rw (e, same) refl
        | inr none_left ↦ absurd none_left
      ]
  | inr e ↦ let q : [] ≡ reply = ground arith in absurd (subst (IsGiven i) (sym q) given)
]

pub server-IsRedis : IsRedis server server_pending server_entries
server-IsRedis = record {
  xadd_ok = λ s f r i e. ground (arith, eq_iff s s);
  xadd_err = λ s f r e h. absurd (ground arith);
  xadd_last = λ s f m r i cap e. (r.listed s, ground (arith, eq_iff s s));
  xadd_others = λ s f m r t ne. ground (arith, eq_iff t s);
  xadd_pending = λ s f r t g i. refl;
  xack_ok = λ s g i r e. is_in-remove i r.unacked;
  xack_others = λ s g i j r ne. is_in-remove_other i j r.unacked ne;
  xack_entries = λ s g i r t. refl;
  xreadgroup_pending = λ g k s n b r i h. ground arith;
  xreadgroup_gives = λ g k s n b r reply i h given. given_pending g k s n b r reply i h given;
  xreadgroup_entries = λ g k s n b r t. ground arith;
  xautoclaim_pending = λ s g k m c n r i h. ground arith;
  xautoclaim_entries = λ s g k m c n r t. ground arith;
  xpending_range_pending = λ s g a b n r i. refl;
  xpending_range_entries = λ s g a b n r t. refl;
}
