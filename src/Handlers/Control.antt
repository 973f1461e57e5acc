-- ===== src/Handlers/Control.antt =====
-- The clauses of the readout of `on_where_am_i`, in src/sonari/daemon/features/control.py. Times are
-- milliseconds.
use Prim.Native.Char.{code}
use claude_tts.Prelude.{
  ℕ, ◌+◌, ◌-◌, String, Bool, true, false, not, ◌||◌, Option, none, some, List, [], ◌∷◌, ◌++◌, ◌==◌,
  ltb, leb, length, filter, if◌then◌else◌, ◌+++◌, decimal,
}
use claude_tts.Prelude.Dict
use claude_tts.Prelude.StrSet
use claude_tts.Prelude.Int.{ℤ, pos_part, neg_part}
use claude_tts.Sessions.{number, folder, session_ids}
use claude_tts.Sessions.Terminal.{Liveness, live, pending, dead, liveness}
use claude_tts.Sessions.Text.{truthy}
use claude_tts.SessionStream.{SessionStream}
use claude_tts.History.{Key, unheard_from_frontier, unheard_age}
use claude_tts.Host.{Host, Env}
use claude_tts.KeepGoing.{is_stopped}
use claude_tts.Handlers.{or_default}
use claude_tts.Handlers.Playback.{shown}
use claude_tts.Handlers.Teaching.{has_decision}
use claude_tts.Handlers.Focus.{counted}

-- `s.startswith(p)` and `p in s`
unfoldable pub starts_with : String → String → Bool
starts_with String.[] s = true
starts_with (String.◌∷◌ c p) String.[] = false
starts_with (String.◌∷◌ c p) (String.◌∷◌ d s) =
    let rest = starts_with p s in if code c == code d then rest else false

unfoldable pub contains : String → String → Bool
unfolding starts_with
contains p String.[] = starts_with p ""
contains p (String.◌∷◌ c s) = let rest = contains p s in starts_with p (String.◌∷◌ c s) || rest

-- `". ".join(parts)`
unfoldable pub sentences : List String → String
sentences [] = ""
sentences (s ∷ []) = s
sentences (s ∷ t ∷ rest) = s +++ ". " +++ sentences (t ∷ rest)

-- `_LIVENESS_MARKS.get(lv, "")`
abbrev pub liveness_mark : Liveness → String
liveness_mark pending = ", pending"
liveness_mark dead = ", closed"
liveness_mark live = ""

-- `_COUNT_WORDS.get(n, "many")`
abbrev pub plural_word : ℕ → String
plural_word n =
    if n == 1
    then "one"
    else if n == 2
    then "two"
    else if n == 3
    then "three"
    else if n == 4
    then "four"
    else if n == 5
    then "five"
    else if n == 6
    then "six"
    else if n == 7
    then "seven"
    else if n == 8
    then "eight"
    else if n == 9
    then "nine"
    else "many"

abbrev pub stale_after : ℕ
stale_after = 900000

abbrev pub is_stale : Option ℤ → Bool
is_stale none = false
is_stale (some age) = ltb (stale_after + neg_part age) (pos_part age)

abbrev pub frontier_in : {A : Type 0} → Option (SessionStream A) → Option Key
frontier_in none = none
frontier_in (some st) = st.frontier

abbrev pub queued_in : {A : Type 0} → Option (SessionStream A) → ℕ
queued_in none = 0
queued_in (some st) = length st.queue.items

-- The entries of the map by their tier, and the sessions with nothing to report.
pub record Also : Type 0 where
  pub decisions : List String
  pub piles : List String
  pub muted_only : List String
  pub quiet : ℕ
  pub pending_quiet : ℕ

-- `sorted` by a key: a later one of the same key stays behind
unfoldable pub insert_by : (String → ℕ) → String → List String → List String
insert_by f s [] = s ∷ []
insert_by f s (t ∷ ts) =
    let rest = insert_by f s ts in if leb (f s) (f t) then s ∷ t ∷ ts else t ∷ rest

unfoldable pub sort_by : (String → ℕ) → List String → List String
unfolding insert_by
sort_by f [] = []
sort_by f (s ∷ ss) = insert_by f s (sort_by f ss)

module _ {A : Type 0} (env : Env A) where
  unfoldable pub numbered : Host A → String → String
  unfolding number
  numbered h session =
      let name = or_default (folder h.sessions session) "another session" in
      elim (number h.sessions session) [ none ↦ name | some n ↦ name +++ " " +++ decimal n ]

  unfoldable pub pointer_mark : Host A → String → String
  unfolding liveness
  pointer_mark h session = liveness_mark (liveness env.exists h.sessions session)

  unfoldable pub entry_clauses : Host A → String → String
  unfolding unheard_from_frontier unheard_age
  entry_clauses h session =
      let st = Dict.get session h.streams in
      let k = queued_in st in
      let u = length (unheard_from_frontier h.history session (frontier_in st)).0 - k in
      (if has_decision env session h then ", decision" else "")
      +++ (if is_stopped st then ", muted" else "")
      +++ (if k == 0 then "" else ", " +++ decimal k +++ " waiting")
      +++ (if u == 0
          then ""
          else ", "
            +++ decimal u
            +++ " unheard"
            +++ (if is_stale (unheard_age env.now h.history session) then ", stale" else ""))

  -- how the map names a session
  unfoldable pub entry_of : Host A → String → String
  unfolding entry_clauses
  entry_of h s =
      shown (number h.sessions s)
      +++ " "
      +++ or_default (folder h.sessions s) "another session"
      +++ liveness_mark (liveness env.exists h.sessions s)
      +++ entry_clauses h s

  -- one round of the loop of `_also_clause`, from the last session to the first
  unfoldable pub also_round : Host A → String → Also → Also
  unfolding entry_clauses entry_of contains starts_with
  also_round h s m =
      let lv = liveness env.exists h.sessions s in
      let clauses = entry_clauses h s in
      let entry = entry_of h s in
      if not (truthy clauses)
      then elim lv [
        | pending ↦ record m { pending_quiet = m.pending_quiet + 1 }
        | live ↦ record m { quiet = m.quiet + 1 }
        | dead ↦ m
      ]
      else if starts_with ", decision" clauses
      then record m { decisions = entry ∷ m.decisions }
      else if contains "waiting" clauses || contains "unheard" clauses
      then record m { piles = entry ∷ m.piles }
      else record m { muted_only = entry ∷ m.muted_only }

  unfoldable pub also_loop : Host A → List String → Also
  unfolding also_round
  also_loop h [] = record {
    decisions = [];
    piles = [];
    muted_only = [];
    quiet = 0;
    pending_quiet = 0;
  }
  also_loop h (s ∷ ss) = also_round h s (also_loop h ss)

  abbrev pub number_or : Host A → String → ℕ
  number_or h s = elim (number h.sessions s) [ none ↦ 0 | some n ↦ n ]

  -- the sessions of the map, by their numbers
  unfoldable pub also_ids : Host A → List String → List String
  unfolding sort_by session_ids
  also_ids h exclude =
      sort_by (number_or h) (filter (λ s. not (StrSet.has s exclude)) (session_ids h.sessions))

  unfoldable pub also_clause : Host A → List String → String
  unfolding also_loop also_ids sentences
  also_clause h exclude =
      let m = also_loop h (also_ids h exclude) in
      let tail : String =
        if m.pending_quiet == 0 then "" else " " +++ counted m.pending_quiet +++ " pending." in
      elim (m.decisions ++ m.piles ++ m.muted_only) [
        | [] ↦ if m.quiet == 0 then tail else " All quiet." +++ tail
        | s ∷ rest ↦
            " Also: "
            +++ sentences (s ∷ rest)
            +++ "."
            +++ (if m.quiet == 0 then "" else " Plus " +++ plural_word m.quiet +++ " quiet.")
            +++ tail
      ]
