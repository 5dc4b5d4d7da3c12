-- ===== src/Monitor/Ring.antt =====
-- What the ring of lib/runtime/include/robobus/monitor/srobo1_log.hpp holds.
use mathlib.Core.List.{append_assoc, append-nil}
use robobus.Base.{
  ℕ, zero, suc, ◌+◌, ◌%◌, ◌<◌, ◌≤◌, ◌≡◌, refl, ◌∙◌, arith, some, List, [], ◌∷◌, ◌++◌, get_elem?,
  set, replicate, drop, length, length-set, length-append, subst, get_elem?-set, ==-refl, ==-ne,
}
use robobus.Monitor.{
  Line, LogMonitor, next, no_log, new_monitor, add_line, walk, lines_of, add_lines,
}

next-mod : (i : ℕ) → i < 12 → next i ≡ (i + 1) % 12
unfolding next
next-mod i h = ground arith

module _ {Level : Type 0} where
  -- From index `i` on, the array holds these lines.
  abbrev Reads : List (Line Level) → ℕ → List (Line Level) → Type 0
  Reads lines i [] = Unit {0}
  Reads lines i (x ∷ w) = (get_elem? lines i ≡ some x) × Reads lines (next i) w

  -- The monitor shows the lines of `w`: they fill the ring from the head on, but for the cell that
  -- is written next.
  pub record Shows (m : LogMonitor Level) (w : List (Line Level)) : Type 0 where
    pub size : length m.lines ≡ 12
    pub head_in : m.head < 12
    pub pointer_at : m.pointer ≡ (m.head + 11) % 12
    pub shown : length w ≡ 11
    pub reads : Reads m.lines m.head w

  walk-Reads :
      (lines : List (Line Level)) (w : List (Line Level)) (i end_ steps : ℕ)
      → Reads lines i w
      → i < 12
      → end_ ≡ (i + length w) % 12
      → length w ≤ 11
      → length w < steps
      → walk steps i end_ lines ≡ some w
  unfolding walk
  walk-Reads lines w i end_ zero r hi e small enough = absurd (omega arith)
  walk-Reads lines [] i end_ (suc steps) r hi e small enough =
      let here : end_ ≡ i = omega arith in rw (here, ==-refl i) refl
  walk-Reads lines (x ∷ w) i end_ (suc steps) (here, r) hi e small enough =
      let after = next-mod i hi in
      let rest =
        walk-Reads lines w (next i) end_ steps r (omega arith) (omega arith) (omega arith)
          (omega arith) in
      rw (==-ne i end_ (omega arith), here, rest) refl

  -- `Lines` comes to its end, and shows what the monitor shows.
  lines_of-Shows : (m : LogMonitor Level) (w : List (Line Level)) → Shows m w → lines_of m ≡ some w
  unfolding lines_of
  lines_of-Shows m w h =
      walk-Reads m.lines w m.head m.pointer 12 h.reads h.head_in
        (omega (arith, h.shown, h.pointer_at)) (omega (arith, h.shown)) (omega (arith, h.shown))

  Reads-set :
      (lines : List (Line Level)) (line : Line Level) (w : List (Line Level)) (i p : ℕ)
      → length lines ≡ 12
      → Reads lines i w
      → i < 12
      → p ≡ (i + length w) % 12
      → length w ≤ 11
      → Reads (set lines p line) i (w ++ line ∷ [])
  Reads-set lines line [] i p size r hi e small =
      let here : p ≡ i = omega arith in
      (rw (here, get_elem?-set lines i i line (omega arith), ==-refl i) refl, tt)
  Reads-set lines line (x ∷ w) i p size (here, r) hi e small =
      let after = next-mod i hi in
      (
        rw (get_elem?-set lines p i line (omega arith), ==-ne p i (omega arith)) here,
        Reads-set lines line w (next i) p size r (omega arith) (omega arith) (omega arith),
      )

  add_line-Shows :
      (m : LogMonitor Level) (line x : Line Level) (w : List (Line Level))
      → Shows m (x ∷ w)
      → Shows (add_line line m) (w ++ line ∷ [])
  unfolding add_line
  add_line-Shows m line x w h =
      let after_head = next-mod m.head h.head_in in
      let after_pointer = next-mod m.pointer (omega (arith, h.pointer_at)) in
      record {
        size = length-set m.lines m.pointer line ∙ h.size;
        head_in = omega arith;
        pointer_at = omega (arith, h.pointer_at);
        shown = omega (arith, h.shown, length-append w (line ∷ []));
        reads =
            Reads-set m.lines line w (next m.head) m.pointer h.size h.reads.1 (omega arith)
              (omega (arith, h.pointer_at, h.shown)) (omega (arith, h.shown));
      }

  add_lines-Shows :
      (added : List (Line Level)) (m : LogMonitor Level) (w : List (Line Level))
      → Shows m w
      → Shows (add_lines added m) (drop (length added) (w ++ added))
  unfolding add_lines
  add_lines-Shows [] m w h = rw (append-nil w) h
  add_lines-Shows (line ∷ added) m [] h = absurd (omega (arith, h.shown))
  add_lines-Shows (line ∷ added) m (x ∷ w) h =
      subst (λ l. Shows (add_lines added (add_line line m)) (drop (length added) l))
        (append_assoc w (line ∷ []) added)
        (add_lines-Shows added (add_line line m) (w ++ line ∷ []) (add_line-Shows m line x w h))

  new-Shows : (info : Level) → Shows (new_monitor info) (replicate 11 (no_log info))
  unfolding next
  new-Shows info = record {
    size = refl;
    head_in = omega arith;
    pointer_at = refl;
    shown = refl;
    reads =
        (refl, (refl, (refl, (refl, (refl, (refl, (refl, (refl, (refl, (refl, (refl, tt)))))))))));
  }

  -- After any lines were added to a new monitor, `Lines` comes to its end and shows eleven lines:
  -- the last eleven of those that were added, the oldest first, behind as many of the first
  -- "no log" lines as are still missing.
  pub lines_of-add_lines :
      (info : Level) (added : List (Line Level))
      → (lines_of (add_lines added (new_monitor info))
          ≡ some (drop (length added) (replicate 11 (no_log info) ++ added)))
        × (length (drop (length added) (replicate 11 (no_log info) ++ added)) ≡ 11)
  lines_of-add_lines info added =
      let shows =
        add_lines-Shows added (new_monitor info) (replicate 11 (no_log info)) (new-Shows info) in
      (
        lines_of-Shows (add_lines added (new_monitor info))
            (drop (length added) (replicate 11 (no_log info) ++ added)) shows,
        shows.shown,
      )
