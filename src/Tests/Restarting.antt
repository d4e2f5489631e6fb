-- ===== src/Tests/Restarting.antt =====
-- The network filter stopped and started again, at concrete inputs.
use netsentry_sensor.Common.{
  ℕ, ◌+◌, ◌*◌, ◌≡◌, refl, true, false, none, some, Option, [], ◌∷◌, arith, count, keep,
  nanos_per_sec,
}
use netsentry_sensor.Common.Dict.{insert}
use netsentry_sensor.Common.Ipv4.{parse_ip, parse_parts, parse_octet, print_ip, print_octet}
use netsentry_sensor.Common.Outcome.{Result, ok}
use netsentry_sensor.Common.Text.{
  codes, text_eq, trim, trim_start, trim_end, is_whitespace, split, strip_prefix,
}
use netsentry_sensor.NetworkFilter.Api.Documents.{deactivated}
use netsentry_sensor.NetworkFilter.Api.Handlers.{
  block_ip, persist_block, unblock_ip, persist_unblock,
}
use netsentry_sensor.NetworkFilter.Api.Messages.{
  PreventionResponse, host_of, normalize_ipv4_target, response,
}
use netsentry_sensor.NetworkFilter.Api.Restart.{has_entry}
use netsentry_sensor.NetworkFilter.Api.Startup.{
  restore_document, restore_documents, restore_active_blocks,
}
use netsentry_sensor.NetworkFilter.Blocking.{restore_blocked_ip, record_block, block_ip_direct}
use netsentry_sensor.NetworkFilter.Blocking
use netsentry_sensor.NetworkFilter.Firewall.{
  apply_iptables_block, remove_iptables_block, apply_specs, apply_spec, after_add, rule_specs,
  run_iptables_command, remove_specs, remove_spec, after_delete,
}
use netsentry_sensor.NetworkFilter.Start.{start}
use netsentry_sensor.NetworkFilter.Start.Survival.{start-block_ip, start-unblock_ip}
use netsentry_sensor.NetworkFilter.State.{World}
use netsentry_sensor.Tests.Database.{Documents, database, database-IsDatabase}
use netsentry_sensor.Tests.Serving.{
  evil, times, calendar, willing, works, world, clock, request, undo, dns, request_valid,
  undo_valid, restore_clock, made,
}

abbrev Handling : Type 0
Handling = Option (Result PreventionResponse ℕ × World ℕ ℕ × Documents)

abbrev world_of : Handling → World ℕ ℕ
world_of (some (r, w, d)) = w
world_of none = world

abbrev blocking : Handling
blocking = block_ip willing times calendar database dns clock request world []

abbrev started : Documents → World ℕ ℕ
started d = elim (start willing times database restore_clock 0 d 0) [ some w ↦ w | none ↦ world ]

-- the documents after the block, and after the unblock
abbrev stored : Documents
stored = made ∷ []

blocked :
    blocking
    ≡ some (
      ok (response calendar 1002 evil (codes " blocked successfully")),
      world_of blocking,
      stored,
    )
unfolding block_ip persist_block block_ip_direct record_block apply_iptables_block apply_specs
    apply_spec after_add rule_specs run_iptables_command normalize_ipv4_target codes trim trim_start
    trim_end is_whitespace parse_ip parse_parts parse_octet split host_of strip_prefix print_ip
    print_octet
blocked = refl

starts : start willing times database restore_clock 0 stored 0 ≡ some (started stored)
unfolding start restore_active_blocks restore_documents restore_document restore_blocked_ip
    record_block apply_iptables_block apply_specs apply_spec after_add rule_specs
    run_iptables_command keep
starts = refl

start-block_ip_example : has_entry evil (started stored) ≡ true
unfolding keep
start-block_ip_example =
    start-block_ip willing times calendar database (λ d. d) database-IsDatabase works restore_clock
      stored evil clock world (world_of blocking) (started stored) [] stored
      (response calendar 1002 evil (codes " blocked successfully")) 0 0 refl starts dns request
      (1001 + 3600 * nanos_per_sec) request_valid (λ x. refl) blocked refl (λ i. omega arith)

abbrev unblocking : Result PreventionResponse ℕ × World ℕ ℕ × Documents
unblocking = unblock_ip willing calendar database clock undo (world_of blocking) stored

abbrev cleared : Documents
cleared = deactivated 0 undo.reason made ∷ []

unblocked :
    unblocking
    ≡ (ok (response calendar 1002 evil (codes " unblocked successfully")), unblocking.1, cleared)
unfolding unblock_ip persist_unblock Blocking.unblock_ip remove_iptables_block remove_specs
    remove_spec after_delete apply_specs rule_specs run_iptables_command normalize_ipv4_target codes
    trim trim_start trim_end is_whitespace parse_ip parse_parts parse_octet split host_of
    strip_prefix print_ip print_octet text_eq block_ip persist_block block_ip_direct record_block
    apply_iptables_block apply_spec after_add insert
unblocked = refl

starts_cleared : start willing times database restore_clock 0 cleared 0 ≡ some (started cleared)
unfolding start restore_active_blocks restore_documents keep
starts_cleared = refl

start-unblock_ip_example : has_entry evil (started cleared) ≡ false
unfolding keep count text_eq codes
start-unblock_ip_example =
    start-unblock_ip willing times calendar database (λ d. d) database-IsDatabase works
      restore_clock [] evil clock (world_of blocking) unblocking.1 (started cleared) stored cleared
      (response calendar 1002 evil (codes " unblocked successfully")) 0 0 refl starts_cleared undo
      undo_valid (λ test set. refl) unblocked (omega arith)
