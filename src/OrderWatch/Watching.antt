-- ===== src/OrderWatch/Watching.antt =====
-- The orders of zeroex/orderwatch/order_watcher.go and the watcher of expiration times: what each
-- update of one order leaves.
pub mod Converted
use x_mesh.Prelude.{
  ℕ, ◌≡◌, ◌≢◌, refl, ap, sym, ◌∙◌, inl, inr, Bool, true, false, not, ◌==◌, ==_refl, Bool-cases,
  List, if◌then◌else◌,
}
use x_mesh.Db.Escape.{Bytes}
use x_mesh.StringSet.{contains, add_to_set, remove_from_set}
use x_mesh.StringSet.Membership.{
  contains-add_to_set, contains-add_to_set_other, contains-remove_from_set,
  contains-remove_from_set_other,
}
use x_mesh.ExpirationWatch.{RbTreeLaws, unix, add_item, remove_item}
use x_mesh.ExpirationWatch.Watched.{watched, add_item-watched, remove_item-watched}
use x_mesh.OrderWatch.{
  Order, Books, Setting, expiration_of, update_order_db_entry, rewatch_order, unwatch_order,
}

module _ {T Store : Type 0} (s : Setting T Store) (laws : RbTreeLaws s.rb_tree) where
  abbrev pub watched_for : T → Order → List Bytes
  watched_for tree order = watched s.rb_tree laws tree (unix (expiration_of order.signed_order))

  -- whether the expiration of an order is watched
  abbrev pub is_watched : T → Order → Bool
  is_watched tree order = contains (watched_for tree order) (s.hex order.hash)

  -- An update of one order keeps its hash, leaves it watched unless it is flagged for removal, and does
  -- not touch whether any other order is watched.
  abbrev pub Keeps : Order → T → Order → T → Type 0
  Keeps old tree new tree' =
      (new.hash ≡ old.hash)
      × (is_watched tree' new ≡ not new.is_removed)
      × ((other : Order) → other.hash ≢ old.hash → is_watched tree' other ≡ is_watched tree other)

  module _ (hex_injective : (a b : ℕ) → s.hex a ≡ s.hex b → a ≡ b) where
    pub rewatch_order-Keeps :
        (order : Order) (amount : ℕ) (b : Books T)
        → let (order', b') = rewatch_order s order amount b in Keeps order b.tree order' b'.tree
    unfolding rewatch_order
    rewatch_order-Keeps order amount b = (
      refl,
      ap (λ ids. contains ids (s.hex order.hash))
            (add_item-watched s.rb_tree laws exp (s.hex order.hash) b.tree (unix exp)
              ∙ rw (==_refl (unix exp)) refl)
          ∙ contains-add_to_set (s.hex order.hash) (watched_for b.tree order),
      λ other differs.
          ap (λ ids. contains ids (s.hex other.hash))
            (add_item-watched s.rb_tree laws exp (s.hex order.hash) b.tree
              (unix (expiration_of other.signed_order)))
          ∙ elim (Bool-cases (unix exp == unix (expiration_of other.signed_order))) [
            | inl e ↦ rw e (
                contains-add_to_set_other (s.hex order.hash) (s.hex other.hash)
                  (watched_for b.tree other)
                  (λ same. differs (sym (hex_injective order.hash other.hash same))))
            | inr e ↦ rw e refl
          ],
    )
      where
        exp : ℕ
        exp = expiration_of order.signed_order

    pub unwatch_order-Keeps :
        (order : Order) (amount : ℕ) (b : Books T)
        → let (order', b') = unwatch_order s order amount b in Keeps order b.tree order' b'.tree
    unfolding unwatch_order
    unwatch_order-Keeps order amount b = (
      refl,
      ap (λ ids. contains ids (s.hex order.hash))
            (remove_item-watched s.rb_tree laws exp (s.hex order.hash) b.tree (unix exp)
              ∙ rw (==_refl (unix exp)) refl)
          ∙ contains-remove_from_set (s.hex order.hash) (watched_for b.tree order),
      λ other differs.
          ap (λ ids. contains ids (s.hex other.hash))
            (remove_item-watched s.rb_tree laws exp (s.hex order.hash) b.tree
              (unix (expiration_of other.signed_order)))
          ∙ elim (Bool-cases (unix exp == unix (expiration_of other.signed_order))) [
            | inl e ↦ rw e (
                contains-remove_from_set_other (s.hex order.hash) (s.hex other.hash)
                  (watched_for b.tree other)
                  (λ same. differs (sym (hex_injective order.hash other.hash same))))
            | inr e ↦ rw e refl
          ],
    )
      where
        exp : ℕ
        exp = expiration_of order.signed_order

    -- An order that is only updated is watched as before.
    pub update_order_db_entry-Keeps :
        (order : Order) (b : Books T)
        → is_watched b.tree order ≡ not order.is_removed
        → let (order', b') = update_order_db_entry s order b in Keeps order b.tree order' b'.tree
    unfolding update_order_db_entry
    update_order_db_entry-Keeps order b h = (refl, h, λ other differs. refl)
