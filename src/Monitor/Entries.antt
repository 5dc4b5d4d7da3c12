-- ===== src/Monitor/Entries.antt =====
-- Which entries the list of lib/runtime/include/robobus/monitor/bus.hpp comes by.
use mathlib.Core.List.{append_assoc, append-nil}
use robobus.Base.{
  ℕ, suc, ◌≡◌, ◌≢◌, refl, sym, ap, subst, ◌∙◌, arith, Option, none, some, List, [], ◌∷◌, ◌++◌,
  ◌>>=◌, length, ==-refl, ==-ne, NotIn, Distinct, Distinct-append, NotIn-front, Distinct-middle,
  Distinct-behind,
}
use robobus.Monitor.Links.{
  Way, last_of, write-other, write_self, Way-write, Way-append, Way-split, last_of-append,
  last_of-ne_other, Way-extend,
}
use robobus.Monitor.Bus.{Bus, write, add_entry, visit, find_before, assign_entry, remove_entry}

module _ {E : Type 0} where
  -- What is along the links is what is visited.
  visit-Way :
      (m : Bus E) (p : Option ℕ) (xs : List ℕ)
      → Way m.link p xs none
      → visit (length xs) p m ≡ some xs
  unfolding visit
  visit-Way m p [] e = rw e refl
  visit-Way m p (x ∷ xs) (e, w) = rw (e, visit-Way m (m.link x) xs w) refl

  find_before-Way :
      (m : Bus E) (a h : ℕ) (mid : List ℕ)
      → NotIn a mid
      → Way m.link (m.link h) mid (some a)
      → (find_before (suc (length mid)) a h m ≡ some (last_of h mid))
        × (m.link (last_of h mid) ≡ some a)
  unfolding find_before
  find_before-Way m a h [] n e = (rw (e, ==-refl a) refl, e)
  find_before-Way m a h (x ∷ mid) (ne, n) (e, w) =
      let (found, linked) = find_before-Way m a x mid n w in (rw (e, ==-ne x a ne) found, linked)

abbrev TailOf : List ℕ → Option ℕ → Type 0
TailOf [] t = Unit
TailOf (x ∷ xs) t = t ≡ some (last_of x xs)

-- A list of entries: the links lead through it, and no other entry is linked to anything.
pub record Holds {E : Type 0} (m : Bus E) (xs : List ℕ) : Type 0 where
  pub way : Way m.link m.head xs none
  pub ends : TailOf xs m.tail
  pub distinct : Distinct xs
  pub loose : (b : ℕ) → NotIn b xs → m.link b ≡ none

module _ {E : Type 0} where
  unfoldable pub add_all : List ℕ → Bus E → Option (Bus E)
  add_all [] m = some m
  add_all (a ∷ rest) m = add_entry a m >>= λ m'. add_all rest m'

  add_entry-Holds :
      (a : ℕ) (m : Bus E) (xs : List ℕ)
      → Holds m xs
      → NotIn a xs
      → (m' : Bus E) × (add_entry a m ≡ some m') × Holds m' (xs ++ a ∷ [])
  unfolding add_entry
  add_entry-Holds a m [] h n = (
    record m { head = some a; tail = some a },
    ground (arith, h.way),
    record {
      way = (refl, h.loose a tt);
      ends = refl;
      distinct = (tt, tt);
      loose = λ b ne. h.loose b tt;
    },
  )
  add_entry-Holds a m (x ∷ xs) h n = (
    record m { tail = some a; link = write (last_of x xs) (some a) m.link },
    ground (arith, h.way.0, h.ends),
    record {
      way = Way-extend m.link a m.head x xs h.way h.distinct n (h.loose a n);
      ends = ap some (sym (last_of-append x a xs));
      distinct = Distinct-append a (x ∷ xs) h.distinct n;
      loose = λ b nb.
          let (front, _) = NotIn-front b (x ∷ xs) (a ∷ []) nb in
          write-other (last_of x xs) (some a) m.link b (last_of-ne_other b x xs front)
          ∙ h.loose b front;
    },
  )

  add_all-Holds :
      (new : List ℕ) (m : Bus E) (xs : List ℕ)
      → Holds m xs
      → Distinct (xs ++ new)
      → (m' : Bus E) × (add_all new m ≡ some m') × Holds m' (xs ++ new)
  unfolding add_all
  add_all-Holds [] m xs h d = (m, refl, rw (append-nil xs) h)
  add_all-Holds (a ∷ rest) m xs h d =
      let (m', added, h') = add_entry-Holds a m xs h (Distinct-middle a xs rest d) in
      let (m'', more, h'') =
        add_all-Holds rest m' (xs ++ a ∷ []) h' (rw (append_assoc xs (a ∷ []) rest) d) in
      (m'', rw (added, add_all) more, rw⁻¹ (append_assoc xs (a ∷ []) rest) h'')

  -- Entries that are added one after another to an empty list, none of them twice and none linked to
  -- another before, are visited in the order in which they were added, each once.
  pub visit-add_all :
      (new : List ℕ) (m : Bus E)
      → m.head ≡ none
      → ((b : ℕ) → m.link b ≡ none)
      → Distinct new
      → (m' : Bus E) × (add_all new m ≡ some m') × (visit (length new) m'.head m' ≡ some new)
  visit-add_all new m empty loose d =
      let (m', added, h) =
        add_all-Holds new m []
          (record { way = empty; ends = tt; distinct = tt; loose = λ b n. loose b }) d in
      (m', added, visit-Way m' m'.head new h.way)

  assign_entry-visit :
      (assign_link : Option ℕ → Option ℕ → Option ℕ)
      → ((p q : Option ℕ) → assign_link p q ≡ q)
      → (m : Bus E) (a b : ℕ) (before after : List ℕ) → Way m.link m.head before (some a)
      → Way m.link (m.link b) after none
      → NotIn a before
      → NotIn a after
      → let m' = assign_entry assign_link a b m in
        visit (length (before ++ a ∷ after)) m'.head m' ≡ some (before ++ a ∷ after)
  unfolding assign_entry
  assign_entry-visit assign_link copies m a b before after front back na nb =
      let v = assign_link (m.link a) (m.link b) in
      let link' = write a v m.link in
      let here : m.link b ≡ link' a =
        sym (copies (m.link a) (m.link b)) ∙ sym (write_self a v m.link) in
      visit-Way (assign_entry assign_link a b m) m.head (before ++ a ∷ after) (
        Way-append link' m.head before a after none
          (Way-write m.link a v m.head before (some a) na front)
          (subst (λ t. Way link' t after none) here
            (Way-write m.link a v (m.link b) after none nb back)))

  -- `RemoveEntry` of an entry `a` between two others: `a` is still visited in its place, and shows
  -- what the entry `b` behind it showed, which is not visited any more; the others show what they
  -- showed. The links lead through the entries once each, and the assignment of a node gives it
  -- the other's link.
  pub remove_entry-stays :
      (assign_link : Option ℕ → Option ℕ → Option ℕ)
      → ((p q : Option ℕ) → assign_link p q ≡ q)
      → (m : Bus E) (h a b : ℕ) (mid after : List ℕ)
      → Way m.link m.head (h ∷ mid ++ a ∷ b ∷ after) none
      → Distinct (h ∷ mid ++ a ∷ b ∷ after)
      → (m' : Bus E) × (remove_entry assign_link (suc (length mid)) a m ≡ some m')
        × (visit (length (h ∷ mid ++ a ∷ after)) m'.head m' ≡ some (h ∷ mid ++ a ∷ after))
        × (m'.shows a ≡ m.shows b)
        × ((x : ℕ) → x ≢ a → m'.shows x ≡ m.shows x)
  unfolding remove_entry
  remove_entry-stays assign_link copies m h a b mid after (first, w) (new, d) =
      let (way_mid, (to_b, way_after)) = Way-split m.link (m.link h) mid a (b ∷ after) none w in
      let (_, not_a) = NotIn-front h mid (a ∷ b ∷ after) new in
      let apart : h ≢ a = λ e. not_a.0 (sym e) in
      let na = Distinct-middle a mid (b ∷ after) d in
      let nb = Distinct-behind mid a (b ∷ after) d in
      let (found, linked) = find_before-Way m a h mid na way_mid in
      (
        assign_entry assign_link a b m,
        simp (first, ==-ne h a apart, found, linked, to_b),
        assign_entry-visit assign_link copies m a b (h ∷ mid) after (first, way_mid) way_after
            (apart, na) nb.1,
        unfold assign_entry in write_self a (m.shows b) m.shows,
        λ x ne. unfold assign_entry in write-other a (m.shows b) m.shows x ne,
      )

  -- Of the last entry, what is behind it is read where there is nothing.
  pub remove_entry-last :
      (assign_link : Option ℕ → Option ℕ → Option ℕ) (m : Bus E) (h a : ℕ) (mid : List ℕ)
      → Way m.link m.head (h ∷ mid ++ a ∷ []) none
      → Distinct (h ∷ mid ++ a ∷ [])
      → remove_entry assign_link (suc (length mid)) a m ≡ none
  unfolding remove_entry
  remove_entry-last assign_link m h a mid (first, w) (new, d) =
      let (way_mid, to_nothing) = Way-split m.link (m.link h) mid a [] none w in
      let (_, not_a) = NotIn-front h mid (a ∷ []) new in
      let apart : h ≢ a = λ e. not_a.0 (sym e) in
      let (found, linked) = find_before-Way m a h mid (Distinct-middle a mid [] d) way_mid in
      simp (first, ==-ne h a apart, found, linked, to_nothing)
