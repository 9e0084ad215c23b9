-- ===== src/Exec/Messages.antt =====
-- The messages of the HTTPExceptions, one constructor for each text; what an f-string shows of the
-- request is left out.
pub data Detail : Type 0 where
  -- api/dependencies.py
  invalid_credentials inactive_user not_admin vm_not_found : Detail
  -- api/routes/auth.py
  already_registered already_project_owner server_error not_enrolled mail_failed : Detail
  owner_exists owner_pending not_in_project not_participant : Detail
  no_verification code_expired too_many_attempts wrong_code : Detail
  admin_only user_not_found already_approved cannot_reject_approved : Detail
  no_pending_code retry_later wrong_login use_oauth pending_approval invalid_refresh : Detail
  oauth_account no_reset_request account_not_found reset_unavailable : Detail
  oauth_no_password wrong_current_password : Detail
  -- services/vm_creation_queue.py and services/vm_service.py
  node_name_missing project_node_forbidden project_tier_forbidden too_many_vms : Detail
  node_not_found job_not_found invalid_tier cores_range memory_range disk_range : Detail
  node_overloaded ram_short storage_unknown storage_full vmid_exhausted ip_exhausted : Detail
  clone_failed clone_timeout lock_timeout vm_create_failed vm_delete_failed : Detail
  -- api/routes/vmcontrol.py
  resize_forbidden hotplug_disabled nothing_to_change cores_choice resize_range resize_failed :
      Detail
  no_expiry too_early_to_extend not_ready vm_expired provisioning : Detail
  snapshot_exists too_many_manual too_many_snapshots snapshot_failed proxmox_failed : Detail
  -- api/routes/firewall.py and api/routes/https_gateway.py
  too_many_ports no_free_port port_conflict gateway_failed bad_port_request : Detail
  default_port_taken port_not_found no_internal_ip too_many_routes subdomain_taken : Detail
  route_not_found : Detail
  -- api/routes/faq.py and api/routes/notifications.py
  question_not_found delete_forbidden notification_not_found : Detail
  -- api/routes/oauth.py
  bad_login_role server_busy invalid_state token_failed userinfo_failed no_email
        other_account_exists :
      Detail
  no_such_account inactive_account invalid_code : Detail
  -- services/mon_service.py
  no_requested_server no_active_server no_capable_server : Detail
