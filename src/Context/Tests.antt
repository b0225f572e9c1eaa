-- ===== src/Context/Tests.antt =====
-- Tests of contexts: two sessions on domain 3, with a driver that accepts everything.
use fastrpc.Common.{ℕ, ◌+◌, ◌≡◌, refl, true, none, some, List, [], ◌∷◌}
use fastrpc.DspQueue.State.{ret}
use fastrpc.Context.{
  Context, Table, Calls, init_domains, open_sessions, create_context, add_to_table, all_valid,
  all_are, set_up, destroy_context, get_domains,
}
use fastrpc.Context.Sessions.{Undone}
use fastrpc.Context.Lifetime.{Created, reaches, create_context-Created, destroy_after_create}

abbrev willing : Calls
willing = record {
  session_open = λ e. (0, 40 + e);
  device_fd = λ e. some 5;
  mdctx_setup = λ dev domains. (0, 77);
  mdctx_remove = λ dev id. 0;
  has_memory = true;
}

abbrev ready_table : Table
ready_table = record { is_init = true; contexts = some [] }

-- Domain 3 and its second session.
abbrev two_sessions : List ℕ
two_sessions = 3 ∷ 11 ∷ []

abbrev made_context : Context
made_context = record {
  ctxid = 77;
  effec_domain_ids = two_sessions;
  domains = 3 ∷ 3 ∷ [];
  devs = 43 ∷ 51 ∷ [];
}

abbrev table_after : Table
table_after = record { is_init = true; contexts = some (made_context ∷ []) }

create_context-Created_example :
    Created willing ready_table [] two_sessions
      (reaches willing ready_table two_sessions 0)
      (create_context willing ready_table (some two_sessions) 0)
create_context-Created_example = create_context-Created willing ready_table [] two_sessions 0 refl

-- What the creation closes.
abbrev none_yet : List ℕ
none_yet = []

destroy_after_create_example :
    (get_domains table_after 77 ≡ ret 0 (table_after, [], some two_sessions))
    × ((all : List ℕ) × (destroy_context willing table_after 77 ≡ ret 0 (ready_table, all, none))
        × Undone willing two_sessions all
        × (none_yet ≡ []))
unfolding create_context set_up add_to_table open_sessions init_domains all_valid all_are
destroy_after_create_example =
    destroy_after_create willing ready_table table_after [] two_sessions [] 0 77 5 refl refl refl
      refl
