-- ===== src/Tests/Standings.antt =====
-- The place that a member of a global group is shown.
use queens.Prelude.{◌≡◌, refl, some, length, get_elem?}
use queens.Prelude.Int.{negsuc}
use queens.Prelude.Text.{bytes, text_lt}
use queens.Prelude.Sort.{sort_by}
use queens.Float.Exact.{exact}
use queens.Group.{Member, member_less, sort_members, evaluate}
use queens.Standing.{place_global}
use queens.Standing.Placement.{place_global-evaluate}
use queens.Tests.Data.{config, challenger, member}
use queens.Tests.Groups.{group, ids_differ}

abbrev cleo : Member
cleo = member (bytes "cleo") 4000 9 1754300900

cleo_second : get_elem? (sort_members group) 1 ≡ some cleo
unfolding sort_members sort_by member_less text_lt
cleo_second = refl

place_global-evaluate_example :
    let shown = place_global exact group (length group) challenger config cleo (negsuc 0) in
    let ev = evaluate exact group challenger config (negsuc 0) in
    (get_elem? ev.members 1 ≡ some (record cleo { rank = shown.rank; zone = some shown.zone }))
    × (shown.promote_count ≡ ev.promote_count)
    × (shown.relegate_count ≡ ev.relegate_count)
place_global-evaluate_example =
    place_global-evaluate exact group challenger config cleo (negsuc 0) 1 ids_differ cleo_second
