-- ===== src/Monitor/Bus.antt =====
-- `Bus` of lib/runtime/include/robobus/monitor/bus.hpp, with entry.hpp, entry_iterator.hpp and
-- entry_iteratable.hpp: a list of entries that others own, linked by their addresses. The link of
-- an entry is `none` where the source has a null pointer; what the assignment of a node of the
-- library robotics does to its link is a parameter.
use robobus.Base.{ℕ, zero, suc, Option, none, some, List, [], ◌∷◌, ◌==◌, if◌then◌else◌, ◌>>=◌}

-- `E` is what an entry shows.
pub record Bus (E : Type 0) : Type 0 where
  pub head : Option ℕ
  pub tail : Option ℕ
  pub link : ℕ → Option ℕ
  pub shows : ℕ → E

abbrev pub write {ℓ} : {V : Type ℓ} → ℕ → V → (ℕ → V) → ℕ → V
write a v f b = if b == a then v else f b

module _ {E : Type 0} where
  -- `AddEntry`; an entry that is there has a tail behind or at it.
  unfoldable pub add_entry : ℕ → Bus E → Option (Bus E)
  add_entry a m = elim m.head [
    | none ↦ some (record m { head = some a; tail = some a })
    | some h ↦ m.tail >>= λ t. some (record m { tail = some a; link = write t (some a) m.link })
  ]

  -- `for (auto const& entry : bus.Entries())`: the addresses that it comes by, for as many steps at
  -- most; `none` if it has not come to the end.
  unfoldable pub visit : ℕ → Option ℕ → Bus E → Option (List ℕ)
  visit steps none m = some []
  visit zero (some a) m = none
  visit (suc steps) (some a) m = visit steps (m.link a) m >>= λ rest. some (a ∷ rest)

  -- `while (&prev->Next() != entry) prev = &prev->Next();`, with what it ends at.
  unfoldable pub find_before : ℕ → ℕ → ℕ → Bus E → Option ℕ
  find_before zero a prev m = none
  find_before (suc steps) a prev m = m.link prev >>= λ next.
      let further = find_before steps a next m in if next == a then some prev else further

  module _ (assign_link : Option ℕ → Option ℕ → Option ℕ) where
    -- `prev->Next() = entry->Next()`: an assignment to the entry behind `prev`.
    unfoldable pub assign_entry : ℕ → ℕ → Bus E → Bus E
    assign_entry to from m = record m {
      shows = write to (m.shows from) m.shows;
      link = write to (assign_link (m.link to) (m.link from)) m.link;
    }

    -- `RemoveEntry`, with steps for its loop.
    unfoldable pub remove_entry : ℕ → ℕ → Bus E → Option (Bus E)
    remove_entry steps a m = m.head >>= λ h.
        if h == a
        then some (record m { head = m.link a })
        else (find_before steps a h m >>= λ prev.
            m.link prev >>= λ to. m.link a >>= λ from. some (assign_entry to from m))
