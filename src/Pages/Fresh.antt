-- ===== src/Pages/Fresh.antt =====
-- The answers on their way to a page of Pages: which of the loads among them are of the store as it is.
use Prim.Native.Nat.{suc}
use novel_platform.Common.{
  Bool, true, false, Option, List, [], ◌∷◌, ◌++◌, any, any-last, any-more, ◌≡◌, ◌⊎◌, inl, inr,
  arith,
}
use novel_platform.Pages.{ok, Server, Reply, shows, load_refused, accepts, refuses, Event, delivers}

-- The page takes the answers in the order in which the server has given them.
abbrev pub in_order : {A E : Type 0} → Event A E → Bool
in_order (delivers (suc i)) = false
in_order e = true

-- The reply ends in an error, or in another load.
abbrev pub speaks : {V R B : Type 0} → Reply V R B → Bool
speaks (shows o v) = false
speaks x = true

module _ {V R B S : Type 0} (server : Server S V R B) where
  -- What a load shows is of the store, or a later reply speaks.
  unfoldable pub Fresh : S → List (Reply V R B) → Type 0
  Fresh s [] = Unit
  Fresh s (shows o v ∷ q) = ((server.read s ≡ ok v) ⊎ (any speaks q ≡ true)) × Fresh s q
  Fresh s (x ∷ q) = Fresh s q

  pub Fresh-last :
      (s : S) (q : List (Reply V R B)) (x : Reply V R B) → speaks x ≡ true → Fresh s (q ++ x ∷ [])
  unfolding Fresh
  Fresh-last s [] (shows o v) h = absurd (ground arith)
  Fresh-last s [] (load_refused o m) h = _
  Fresh-last s [] (accepts r b) h = _
  Fresh-last s [] (refuses r m) h = _
  Fresh-last s (shows o v ∷ q) x h = (inr (any-last speaks q x h), Fresh-last s q x h)
  Fresh-last s (load_refused o m ∷ q) x h = Fresh-last s q x h
  Fresh-last s (accepts r b ∷ q) x h = Fresh-last s q x h
  Fresh-last s (refuses r m ∷ q) x h = Fresh-last s q x h

  pub Fresh-load :
      (s : S) (q : List (Reply V R B)) (o : Option R) (v : V)
      → server.read s ≡ ok v
      → Fresh s q
      → Fresh s (q ++ shows o v ∷ [])
  unfolding Fresh
  Fresh-load s [] o v e h = (inl e, _)
  Fresh-load s (shows o' v' ∷ q) o v e (inl k, h) = (inl k, Fresh-load s q o v e h)
  Fresh-load s (shows o' v' ∷ q) o v e (inr k, h) =
      (inr (any-more speaks q (shows o v) k), Fresh-load s q o v e h)
  Fresh-load s (load_refused o' m ∷ q) o v e h = Fresh-load s q o v e h
  Fresh-load s (accepts r b ∷ q) o v e h = Fresh-load s q o v e h
  Fresh-load s (refuses r m ∷ q) o v e h = Fresh-load s q o v e h

  pub Fresh-tail : (s : S) (x : Reply V R B) (q : List (Reply V R B)) → Fresh s (x ∷ q) → Fresh s q
  unfolding Fresh
  Fresh-tail s (shows o v) q h = h.1
  Fresh-tail s (load_refused o m) q h = h
  Fresh-tail s (accepts r b) q h = h
  Fresh-tail s (refuses r m) q h = h
