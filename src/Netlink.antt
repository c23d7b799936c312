-- ===== src/Netlink.antt =====
-- src/in_netlink.c: the links and their traffic control as elements. The functions of libnl on its
-- objects and caches are parameters; `element_lookup` works on the list of the parent.
pub mod Objects
pub mod Visits
pub mod Links
pub mod Apart
pub mod Fuel
mod Tests
use bmon.Prelude.{
  ℕ, zero, suc, ◌+◌, Bool, true, false, not, ◌&&◌, ◌||◌, Option, none, some, List, [], ◌∷◌,
  if◌then◌else◌, ◌==◌, ◌>>=◌,
}
use bmon.Prelude.Bytes.{Bytes, codes, str_eq}
use bmon.Prelude.Int.{ℤ, pos, negsuc}
use bmon.AttrDef.{AttrMap}
use bmon.Attr.{UpdateFlags}

-- An entry of `link_attrs` or `tc_attrs` with the two counters it is read from; -1 is none.
pub record NetAttr : Type 0 where
  pub attr : AttrMap
  pub rxid : ℤ
  pub txid : ℤ

-- `if (m->rxid >= 0) c_rx = rtnl_link_get_stat(link, m->rxid)`: the counter and the flag.
unfoldable pub link_stat : (ℕ → ℕ) → ℤ → ℕ × Bool
link_stat get_stat (pos id) = (get_stat id, true)
link_stat get_stat (negsuc n) = (0, false)

-- The loop over `link_attrs`; `update` is attr_update.
unfoldable pub link_update :
    {E : Type 0} → (ℕ → ℕ → ℕ → UpdateFlags → E → E) → (ℕ → ℕ) → List NetAttr → E → E
unfolding link_stat
link_update update get_stat [] e = e
link_update update get_stat (m ∷ map) e =
    let (c_rx, rx) = link_stat get_stat m.rxid in
    let (c_tx, tx) = link_stat get_stat m.txid in
    link_update update get_stat map
      (update m.attr.attrid c_rx c_tx (record { update_flag_rx = rx; update_flag_tx = tx }) e)

-- The loop of `update_tc_attrs` over `tc_attrs`.
unfoldable pub update_tc_attrs :
    {E : Type 0} → (ℕ → ℕ → ℕ → UpdateFlags → E → E) → (ℤ → ℕ) → List NetAttr → E → E
update_tc_attrs update get_stat [] e = e
update_tc_attrs update get_stat (m ∷ map) e = update_tc_attrs update get_stat map (
    update m.attr.attrid 0 (get_stat m.txid)
      (record { update_flag_rx = false; update_flag_tx = true }) e)

-- `netlink_use_bit`: `use_bit` is the option of that name.
unfoldable pub netlink_use_bit : Bool → List NetAttr → List NetAttr
netlink_use_bit use_bit [] = []
netlink_use_bit use_bit (m ∷ map) =
    let attr' : AttrMap =
      if use_bit && str_eq m.attr.description (codes "Bytes")
      then record (m.attr) { description = codes "Bits" }
      else m.attr in
    record m { attr = attr' } ∷ netlink_use_bit use_bit map
