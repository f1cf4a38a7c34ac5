-- ===== src/Lib.antt =====
-- Spaced Bazaar is a GNOME application store for Flatpak, written in C on GLib, libdex, libadwaita
-- and libflatpak. A background refresh reads the repositories into entry groups and writes a
-- search index; the shell search provider and the daemon read that index; an entry carries the
-- permissions of its application, which the safety calculator rates for the context tiles and for
-- the install dialog; hooks from the configuration run shell code and dialogs around transactions
-- and views.
--
-- The parts that are modelled, and where:
--   Hooks: src/hooks.c. `stages` is the loop of execute_hook_fiber, one `round` a stage, over the
--     `State` of its local variables; `choose` picks the stage, `after_reply` is the switch on the
--     first line of its output; `build_dialogs` makes the dialogs; `run_emission` is
--     run_emission_fiber, and `execute_hook` is bz_execute_hook. The shell, the clock of the user
--     and GRegex are the parameter `Host`. The loop is on fuel: 3 n + 3 rounds for n dialogs
--     (`stage_bound`), the bound of Hooks/Termination.antt.
--   Index: src/search-index-write.c and src/search-index.c. `bz_write_search_index` writes through
--     GIO calls that may each fail, with the temporary file and the file at the final path as state;
--     `search_index_open`, `search_index_reload_if_stale`, `search_index_find` and
--     `search_index_query` read. A file is a list of bytes; 32-bit and size_t counts keep their
--     wrap-around (`u32_mod`, `size_mod`), and theorems that need a count not to wrap say so.
--   Permissions: src/bz-app-permissions.c and .h. A word of flags is the function that says which
--     bits are set (`Flags`). An operation that a g_assert aborts gives `none`.
--     `bz_app_permissions_new_from_metadata` reads a `Metadata`, which is what the GKeyFile
--     accessors return, NULL for a policy included; the two qsort calls are the parameter `Sorting`,
--     any permutation. `bz_app_permissions_serialize` and `bz_app_permissions_deserialize` write and
--     read the entries of a dictionary, with the nicks that the program gives its enumerations
--     (Nicks); its `none` is that a NULL policy is put in the array.
--   Safety: src/safety-calculator.c, with the warning of src/bz-transaction-dialog.c.
--     `analyze_entry` lists the calls of add_row_if_permission in the order of the code and runs
--     them; `none` is the abort of g_assert_not_reached. gettext and printf are the parameter
--     `Locale`.
--   Categories: src/bz-category-flags.c. The set of an application's categories, by the names of
--     the repositories; g_ascii_strdown is the parameter `strdown`.
--   Groups: src/bz-entry-group.c, with bz_entry_calc_usefulness of src/bz-entry.c.
--     `bz_entry_group_add`, `installed_changed`, `holding_changed` and
--     `reconcile_with_installed_set` act on an `EntryGroup`; an access to its arrays out of bounds
--     gives `none`, an int counter is a ℤ, and a GtkStringList is a List. The entry that a call is
--     made with is the record of what the getters answer then. `handle_all` runs a sequence of
--     calls. Saved is bz_entry_group_serialize and bz_entry_group_deserialize, on a dictionary as a
--     list.
--   Transactions: src/bz-transaction-manager.c, with bz_transaction_new_full and
--     bz_transaction_new_merged of src/bz-transaction.c. `handle` is one call of the manager or one
--     callback: `bz_transaction_manager_add`, `set_paused`, `cancel_current`, `clear_finished`,
--     `transaction_finally` when the fiber of the current transaction has ended, and `then_loop_cb`,
--     which runs only while the manager holds the future of its loop. `run` is any sequence of these
--     and collects the transactions that are handed to the backend.
--   Newlines: src/bz-newline-parser.c. `process_bytes` is the loop of
--     bz_newline_parser_real_process_bytes over the bytes of a list of ids; its fuel is the number
--     of bytes and one, enough since each round takes a byte.
--   Search: src/bz-search-engine.c. `query_visits` lists the indices at which the sub-tasks of
--     query_task_fiber read the groups, for a number of processors and of groups. Strings is
--     test_strings, whose strings are cut into tokens by `tokens_of`: its fuel is one more than the
--     characters, of which every token takes one at least (Cut). Scores is query_sub_task_fiber.
--   Wdgt: bge/wdgt/fmt/parser.c. Lexer is consume_token_inner and Macros consume_token; Expression
--     and Blocks are parse_eval, whose fuel bounds its tokens: one more than the characters that are
--     left is enough (Safe), where no '#' calls parse_args, which is a parameter without laws;
--     Operators is eval_closure, with the two buffers. Reference is the value of a block by
--     contraction.
--   Common: the names that the parts share: bytes and C strings, Boolean tests on native numbers,
--     lists.
--
-- Not modelled: memory management and reference counts, which have no counterpart in values; the
-- guards against NULL arguments and against an allocation that fails (malloc, calloc), and the
-- guint that counts the newline parser's lines; the fibers' scheduling, since each of these
-- routines awaits one thing at a time, except for the callbacks of the transaction manager, whose
-- interleavings with its calls are the sequences of `Transactions.Manager.run`; the operations
-- inside a running transaction; the search engine's choice of biases and order of results and the
-- parsers of YAML and AppStream; and the widgets, the rest of the bge toolkit, the Flatpak and
-- Flathub back ends, which are calls of GTK, libflatpak and libsoup.
pub mod Categories
pub mod Common
pub mod Groups
pub mod Hooks
pub mod Index
pub mod Newlines
pub mod Permissions
pub mod Safety
pub mod Search
pub mod Transactions
pub mod Wdgt
