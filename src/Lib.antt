-- ===== src/Lib.antt =====
-- The backend of the Vindobona II system, the administration of a student fraternity and its alumni:
-- its bookkeeping (`p4x`: bank transactions, their categories, and the membership fees), its archive
-- of files, the sessions of its users, and their permissions.
--
-- Parts. The bank accounts' transactions are rows. A *category filter* is a saved search; the
-- transactions that it matches are stored as *hits*, which all other parts read. A *direct
-- assignment* splits one transaction over categories by hand and overrides every filter: a
-- transaction with a live direct assignment has no hits. So each change of a filter rebuilds the
-- hits, and each change of a direct assignment brings those of one transaction up to date. The
-- membership fees read both: a fee payment is a transaction of the category
-- `eingang.mitgliedsbeitrag`, by direct assignment or by hit, of one of a member's own IBANs or
-- delegated to the member.
--
-- A *session* is a row with the digest of a refresh secret. A login makes one, each refresh exchanges
-- the secret for a new one, and a secret that is sent twice ends the session. An access token names a
-- session, which must still be stored. A password reset ends every session of its member. What a
-- member may do follows from the active roles by a fixed list of rules.
--
-- The *archive* is a forest of directories, each with grants to an organization and a state; a
-- directory may pass its grants on to all below it. Files lie in directories and refer to stored
-- contents, which several files may share. A directory in the trash keeps what is below it, which then
-- only an admin of the archive reads.
--
-- A *member* may have another one as parent (`Leibverhaeltnis`), so that the members are a forest too.
-- Each change of a member's roles is compared with the roles before, and the differences are kept as
-- the history of the roles. The admins order the links of the public site, one by one.
--
-- Files, with the code each models:
--   Prelude          the numbers, lists, Boolean tests and result type that all parts share
--   Text             app/services/search_utils.py (`escape_like`); Text/Like: LIKE patterns
--   Calendar         Python's dates, and the month arithmetic of p4x_fee_balance_service.py
--   Bookkeeping      app/services/p4x_category_service.py and parts of p4x_account_service.py:
--     Store          the tables of app/models/p4x_*.py
--     Criteria       `_apply_category_filter_criteria`
--     Hits           the filter engine (`apply_all_category_filters`, `_refresh_transaction_hits`)
--     Warnings       `get_warnings_partner`, `get_warnings_category`
--     Amounts        the decimal amounts of direct assignments
--     Directs        `set_category_direct`, `unset_category_direct`, `filter_to_direct`
--     Categories     `create_category`, `update_category`, `delete_category`
--     Partners       `set_transaction_partner` of app/services/p4x_partner_service.py
--     Filters        `create_category_filter`, `update_category_filter`, `delete_category_filter`
--   Fees             app/services/p4x_fee_balance_service.py:
--     Schedule       `get_all_fees`, `_fee_at`, `fee_for_month`, `create_fee`, `delete_fee`
--     Payments       `_fee_category_tx_ids`, `_get_fee_payments_sum`, `_get_fee_payments_list`
--     Balance        `calculate_fee_balance`
--     BalanceList    `get_fee_balances`
--   Forest           rows with a parent in the same table, for the directories and the members
--   Archive          app/services/archive_service.py:
--     Store          the tables of app/models/archive_*.py
--     Tree           `build_path`, `_is_descendant`
--     Permissions    `get_effective_permissions`, `can_insight` and the guards
--     Requests       the request bodies of app/schemas/archive.py
--     Dirs, Receive  the operations on directories, and the moves by clipboard
--     Steps          all of them as steps of the archive
--     Trash          `_trashed_subtree`
--     Reading        `_require_readable_file`, `get_root_content`, `get_dir_detail`
--     Files          files and comments; Files/Upload: `upload_file`; Files/Erasure:
--                    `delete_unfiled_upload` and app/services/archive_store_cleanup.py
--     Stats, Search  `get_archive_stats`, `search_archive`
--     Maintenance    app/services/archive_maintenance_service.py
--   Kinship          `validate_parent_id` of app/services/standesdb_service.py, and the parents that
--                    `create_member` and `update_member` of standesdb_entry_service.py write
--   RoleHistory      app/services/role_history_service.py: `diff_role_entries`,
--                    `record_role_changes`
--   Auth             app/services/auth_service.py:
--     Session        the tables and `refresh_session`
--     Access         `authenticate_user`, `create_user_session`, `authenticate_access_token`,
--                    `logout_user`, `execute_password_reset`
--   Permissions      app/services/permission_service.py: `PERMISSION_RULES`, `_active_roles`,
--                    `permissions_conferred_by_role`, `calculate_permissions`
--   SocialLinks      app/services/social_links_service.py and app/services/reorder_service.py
-- The children of a module (Hits/Rebuild, Balance/Dates, ...), and the other
-- files of Auth and Permissions, hold proofs and tests.
--
-- State. The bookkeeping's view of the database is the record `Db`, one list of rows for each table; an
-- operation is a function from a `Db` to a `Db`, or to a result that is its error or the new one. A
-- commit is the end of the function, and an error leaves the database as it was. An id is a number,
-- since ids are only compared; a stored amount is an integer number of cents, and one of a request for
-- direct assignments a decimal of any number of places. Today's date, the time of a
-- deletion and the id of a new row are arguments. A violated constraint of the database is an error
-- of its own (`integrity_error`, `unique_violation`). The archive is the record `ArchiveDb`, with the
-- ids of the organizations and states, and its own errors. The sessions are the record `AuthDb`; since a
-- refusal may end a session, an operation on it returns its result and the new `AuthDb`.
--
-- Parameters. PostgreSQL's `ILIKE ... ESCAPE` is the argument `ilike`, of a text and a pattern;
-- nothing is assumed of it. The digest of a secret, the comparison of a password with its hash, the
-- database's `lower`, the two lifetimes of a session and the random secrets are arguments as well; an
-- access token is what it decodes to.
--
-- Whether and how well a row of the archive matches a search, the digest of an upload and the calls
-- of the object storage are arguments.
--
-- Bounds. Every loop of the other parts is over a list or a counted range of months. The climbs up
-- the tree of directories and the rounds of the recursive query for the trash have fuel for one or two
-- rows more than the table has: a climb to a root meets no row twice, and each round but the last adds
-- a row. Without fuel a call of the archive gives `no_fuel`, which the moves by clipboard and the
-- query never give, nor any climb in a forest. The walk up the parents of a member has fuel for two
-- rows more than there are members. Dates have a month from 1 to 12 and a year of four digits, not the
-- first, and no balance starts in December 9999; capitals and blanks are those of ASCII, to which the validator of a filter's IBAN keeps its
-- input. Rows with equal sort keys keep the order of the table, which SQL leaves open.
--
-- Not modelled: searches by similarity, responses, PDF files and e-mail, imports, and the other
-- parts of the backend (the other fields of members, pictures, the rest of the public site, jobs), mail,
-- amounts of more than twelve digits, presigned addresses and thumbnails of the archive, and the login by
-- Google.
pub mod Prelude
pub mod Text
pub mod Calendar
pub mod Bookkeeping
pub mod Fees
pub mod Forest
pub mod Archive
pub mod Kinship
pub mod RoleHistory
pub mod SocialLinks
pub mod Auth
pub mod Permissions
