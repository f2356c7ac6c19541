-- ===== src/Lib.antt =====
-- Models of Odoo modules of the repository, and theorems about them. Each module of the repository
-- is an addon of its own; they interact with Odoo, not with each other, so each has its own state
-- here, and they share only the helpers of Common.
--
-- Common: tests, lists, dictionaries in insertion order, and actions, which change a state and
-- return or raise; what was written before an exception stays until a caller rolls back.
--
-- Changeset: base_changeset/models. Orm: the fields and the reads and writes of the ORM, which are
-- parameters without laws: a write or a creation may raise, and a record may be gone. Reads are of records
-- that exist and that the user may read; the reads, conversions and expressions of these do not raise in the
-- model. Rules: changeset_field_rule.py, `_get_rules` behind its cache, `get_rules`, and create, write and
-- unlink, which clear the cache. State: the tables of changesets and changes.
-- Values, Add: record_changeset_change.py `_prepare_changeset_change` and record_changeset.py
-- `add_changeset`. Base: base.py, `create` and `write` of any model. Apply:
-- record_changeset_change.py, `apply`, `cancel` and what they call. The search of rules and `sorted`
-- are parameters with the laws used of them. Not modelled: values rendered for display, `get_view`,
-- the search methods of computed fields, the cache of the tracked models.
--
-- DaylightSaving: cron_daylight_saving_time_resistant/models/ir_cron.py. Instants are seconds, and the UTC
-- offset of an instant is a parameter. The loop of `_calculate_daylight_offset` runs on fuel, the seconds up to
-- now and one more, which is enough for a step of at least a second. Offsets has the proofs. Not modelled: steps of months.
--
-- Exceptions: base_exception/models. `_get_exceptions`, `detect_exceptions`, `_check_exception`,
-- `action_ignore_exceptions`; what a rule says of a record is a parameter. Links and Detected have
-- the proofs. Not modelled: the summary in HTML, the pop-up, the cache of the rules.
--
-- SequenceOption: base_sequence_option/models. `get_sequence`, `next_by_id` and `next_by_code`; whether a record
-- matches a domain is a parameter. Unique has the proof.
--
-- SessionDb: session_db/pg_session_store.py. The store is the open connection and the rows of
-- `http_sessions`; the server is a parameter that says of each request whether it is answered or
-- lost, before or after it was executed. The loop of `with_cursor` runs on fuel 5, which is
-- enough because the fifth failure raises. Retry, Stored and Recovery have the
-- proofs. Not modelled: the locks between threads.
--
-- AttachmentQueue: attachment_queue/models/attachment_queue.py. A cursor is the transaction and
-- what is committed; the processing of a file type is a parameter.
--
-- InverseDomain: base_domain_inverse_function/inverse_expression.py, `inverse_combine`. `AND` and `OR` are
-- parameters, with the law that they put normalized domains behind their operators. Parts, Inverse and
-- Combined have the proofs.
--
-- ModuleAutoUpdate: module_auto_update/models/module.py. `upgrade_changed_checksum` with its
-- commits; the checksum of a directory and the three methods of Odoo are parameters.
--
-- Partition: base_partition/models/models.py. A recordset is the list of its ids, and the accessor and `read`
-- are parameters. `range` of `batch` runs on fuel, the number of records, which is enough since a step is
-- at least 1. Groups, Batches and Rows have the proofs.
--
-- TimeWindow: base_time_window/models. Dates are counted as `toordinal()` counts them, hours in a
-- fixed unit. Not modelled: the conversion of hours from floating point.
--
-- UpgradeCompare: upgrade_analysis/compare.py up to `compare_sets`. A record is a function from its
-- keys to texts or `False`; since no value is `None`, the test `is not None` is always true. A
-- line of the report is kept as its parts, before it is formatted. Not modelled: `compare_xml_sets`
-- and `compare_model_sets`.
--
-- Auditlog: auditlog/models/rule.py. Diff, Lines, Methods: `create_logs`, the lines of a log and the
-- methods `_make_*`, which call the method of the model and log it; the ORM is a record of reads, and
-- a method of a model is an action on its database. Registry: the rules with `_patch_methods`,
-- `_revert_methods` and the operations of a rule; a user's `write` of a rule is a step of Reach where
-- the rule is a draft. Written, Logged, Calls, Patched, Subscribed, Operations, Unsubscribed, Reached and Reach
-- have the proofs. Not modelled: `ThrowAwayCache`, the HTTP session and request of a log, the autovacuum.
--
-- ViewInheritance: base_view_inheritance_extension/models/ir_ui_view.py, `ast_dict_update` alone;
-- the rest of that file works on XML trees.
pub mod AttachmentQueue
pub mod Auditlog
pub mod Changeset
pub mod Common
pub mod DaylightSaving
pub mod Exceptions
pub mod InverseDomain
pub mod ModuleAutoUpdate
pub mod Partition
pub mod SequenceOption
pub mod SessionDb
pub mod TimeWindow
pub mod UpgradeCompare
pub mod ViewInheritance
