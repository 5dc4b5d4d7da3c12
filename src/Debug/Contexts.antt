-- ===== src/Debug/Contexts.antt =====
-- `Context` and `RootContext` of lib/runtime/include/robobus/context: a path of tags, which is the type of
-- a context, and a pointer to the root with its loop; a null pointer is `none`.
use mathlib.Core.List.{append_assoc, append-nil}
use robobus.Base.{ℕ, ◌≡◌, refl, Option, none, some, List, [], ◌∷◌, ◌++◌}
use robobus.Debug.{StringLiteral, concat, append_char}
use robobus.Debug.Literals.{Spells, concat-Spells}

-- `ConcatPath`
unfoldable pub concat_path : StringLiteral → StringLiteral → StringLiteral
concat_path parent_path tag = concat (append_char parent_path b'.') tag

pub record Context (R : Type 0) : Type 0 where
  pub path : StringLiteral
  pub root_ctx : Option R

module _ {R : Type 0} where
  -- `RootContext::Child`
  unfoldable pub root_child : StringLiteral → R → Context R
  root_child tag root = record { path = tag; root_ctx = some root }

  unfoldable pub child : StringLiteral → Context R → Context R
  child tag c = record { path = concat_path c.path tag; root_ctx = c.root_ctx }

  -- The move constructor: the new context, and what is left of the other.
  unfoldable pub move_context : Context R → Context R × Context R
  move_context c = (record { path = c.path; root_ctx = c.root_ctx }, record c { root_ctx = none })

  unfoldable pub context_id : Context R → List ℕ
  context_id c = c.path.characters

  -- The tag of `GetDebugInfo`.
  unfoldable pub debug_tag : StringLiteral → Context R → StringLiteral
  debug_tag name c = concat_path c.path name

  unfoldable pub descend : List StringLiteral → Context R → Context R
  descend [] c = c
  descend (tag ∷ rest) c = descend rest (child tag c)

-- Each literal spells the text at its place.
abbrev pub AllSpell : List StringLiteral → List (List ℕ) → Type 0
AllSpell [] [] = Unit
AllSpell [] (t ∷ texts) = ⊥
AllSpell (a ∷ tags) [] = ⊥
AllSpell (a ∷ tags) (t ∷ texts) = Spells a t × AllSpell tags texts

-- The texts, each with a dot before it.
pub dotted : List (List ℕ) → List ℕ
dotted [] = []
dotted (t ∷ texts) = b'.' ∷ t ++ dotted texts

concat_path-Spells :
    (a b : StringLiteral) (s t : List ℕ)
    → Spells a s
    → Spells b t
    → Spells (concat_path a b) (s ++ b'.' ∷ t)
unfolding concat_path
concat_path-Spells a b s t ha hb =
    let dot = (concat-Spells a b b'.' s t ha hb).1 in
    rw⁻¹ (append_assoc s (b'.' ∷ []) t)
      (concat-Spells (append_char a b'.') b b'.' (s ++ b'.' ∷ []) t dot hb).0

module _ {R : Type 0} where
  -- A context below another by some tags has the other's root; its path spells the other's, and the
  -- tags with a dot before each; and the tag of its debug information spells that, and the name
  -- with a dot before it.
  pub descend-Spells :
      (tags : List StringLiteral) (texts : List (List ℕ)) (c : Context R) (path : List ℕ)
      (name : StringLiteral) (text : List ℕ)
      → AllSpell tags texts
      → Spells c.path path
      → Spells name text
      → Spells (descend tags c).path (path ++ dotted texts)
        × Spells (debug_tag name (descend tags c)) ((path ++ dotted texts) ++ b'.' ∷ text)
        × ((descend tags c).root_ctx ≡ c.root_ctx)
  unfolding debug_tag descend child dotted
  descend-Spells [] [] c path name text h hc hn =
      rw (append-nil path) (hc, concat_path-Spells c.path name path text hc hn, refl)
  descend-Spells [] (t ∷ texts) c path name text h hc hn = absurd h
  descend-Spells (a ∷ tags) [] c path name text h hc hn = absurd h
  descend-Spells (a ∷ tags) (t ∷ texts) c path name text (ha, h) hc hn =
      rw⁻¹ (append_assoc path (b'.' ∷ t) (dotted texts)) (
        descend-Spells tags texts (child a c) (path ++ b'.' ∷ t) name text h
          (concat_path-Spells c.path a path t hc ha) hn)
