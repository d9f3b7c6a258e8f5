-- ===== src/Kafka/Errors.antt =====
-- `enum ErrorCode` of rdkafkacpp.h: what the calls of the library answer. The enumerators named
-- `ERR__*` are errors of the client library, the others those of the broker.
use kafka_client.Base.{Bool, true, false}

pub data LocalError : Type 0 where
  begin bad_msg bad_compression destroy fail transport crit_sys_resource : LocalError
  resolve msg_timed_out partition_eof unknown_partition fs unknown_topic : LocalError
  all_brokers_down invalid_arg timed_out queue_full isr_insuff node_update ssl : LocalError
  wait_coord unknown_group in_progress prev_in_progress existing_subscription : LocalError
  assign_partitions revoke_partitions conflict state unknown_protocol : LocalError
  not_implemented authentication no_offset outdated timed_out_queue : LocalError
  unsupported_feature wait_cache intr key_serialization value_serialization : LocalError
  key_deserialization value_deserialization partial read_only noent underflow : LocalError
  invalid_type retry purge_queue purge_inflight fatal inconsistent : LocalError
  gapless_guarantee max_poll_exceeded unknown_broker not_configured fenced : LocalError
  application assignment_lost noop end : LocalError

pub data BrokerError : Type 0 where
  unknown no_error offset_out_of_range invalid_msg unknown_topic_or_part : BrokerError
  invalid_msg_size leader_not_available not_leader_for_partition : BrokerError
  request_timed_out broker_not_available replica_not_available : BrokerError
  msg_size_too_large stale_ctrl_epoch offset_metadata_too_large : BrokerError
  network_exception coordinator_load_in_progress coordinator_not_available : BrokerError
  not_coordinator topic_exception record_list_too_large not_enough_replicas : BrokerError
  not_enough_replicas_after_append invalid_required_acks illegal_generation : BrokerError
  inconsistent_group_protocol invalid_group_id unknown_member_id : BrokerError
  invalid_session_timeout rebalance_in_progress invalid_commit_offset_size : BrokerError
  topic_authorization_failed group_authorization_failed : BrokerError
  cluster_authorization_failed invalid_timestamp unsupported_sasl_mechanism : BrokerError
  illegal_sasl_state unsupported_version topic_already_exists : BrokerError
  invalid_partitions invalid_replication_factor invalid_replica_assignment : BrokerError
  invalid_config not_controller invalid_request : BrokerError
  unsupported_for_message_format policy_violation : BrokerError
  out_of_order_sequence_number duplicate_sequence_number : BrokerError
  invalid_producer_epoch invalid_txn_state invalid_producer_id_mapping : BrokerError
  invalid_transaction_timeout concurrent_transactions : BrokerError
  transaction_coordinator_fenced transactional_id_authorization_failed : BrokerError
  security_disabled operation_not_attempted kafka_storage_error : BrokerError
  log_dir_not_found sasl_authentication_failed unknown_producer_id : BrokerError
  reassignment_in_progress delegation_token_auth_disabled : BrokerError
  delegation_token_not_found delegation_token_owner_mismatch : BrokerError
  delegation_token_request_not_allowed delegation_token_authorization_failed : BrokerError
  delegation_token_expired invalid_principal_type non_empty_group : BrokerError
  group_id_not_found fetch_session_id_not_found invalid_fetch_session_epoch : BrokerError
  listener_not_found topic_deletion_disabled fenced_leader_epoch : BrokerError
  unknown_leader_epoch unsupported_compression_type stale_broker_epoch : BrokerError
  offset_not_available member_id_required preferred_leader_not_available : BrokerError
  group_max_size_reached fenced_instance_id eligible_leaders_not_available : BrokerError
  election_not_needed no_reassignment_in_progress group_subscribed_to_topic : BrokerError
  invalid_record unstable_offset_commit throttling_quota_exceeded : BrokerError
  producer_fenced resource_not_found duplicate_resource : BrokerError
  unacceptable_credential inconsistent_voter_set invalid_update_version : BrokerError
  feature_update_failed principal_deserialization_failure : BrokerError

pub data ErrorCode : Type 0 where
  local : LocalError → ErrorCode
  broker : BrokerError → ErrorCode

-- `code == ERR_NO_ERROR`
abbrev pub is_no_error : ErrorCode → Bool
is_no_error (local e) = false
is_no_error (broker no_error) = true
is_no_error (broker e) = false
