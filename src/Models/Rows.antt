-- ===== src/Models/Rows.antt =====
-- The tables' rows and the database.
use gsm_sv.Prelude.{ℕ, Bool, Option, String, List}
use gsm_sv.Table.{Table}
use gsm_sv.Exec.{Detail}
use gsm_sv.Models.Enums.{UserRole, VmTier, VmOs, JobStatus, Protocol, Ip}

-- A text that the program takes apart, as its code points.
abbrev pub Text : Type 0
Text = List ℕ

-- The student information of DataGSM.
pub record Student : Type 0 where
  pub name : Option String
  pub grade : Option ℕ
  pub class_num : Option ℕ
  pub number : Option ℕ
  pub major : Option String

-- models/user.py
pub record User : Type 0 where
  pub id : ℕ
  pub email : String
  pub hashed_password : Option String
  pub role : UserRole
  pub is_active : Bool
  pub oauth_provider : Option String
  pub oauth_sub : Option String
  pub student : Student
  pub avatar_url : Option String
  pub project_name : Option String
  pub project_reason : Option String

-- models/server.py; passwords are only handed on to SSH and are left out.
pub record Server : Type 0 where
  pub id : ℕ
  pub name : String
  pub is_active : Bool
  pub ssh_user : Option String
  pub gateway_ip : Option Ip
  pub gateway_user : Option String
  pub base_port : ℕ
  pub last_free_ram_mb : ℕ

-- models/vm.py
pub record Vm : Type 0 where
  pub id : ℕ
  pub hypervisor_vmid : ℕ
  pub name : Text
  pub display_name : Text
  pub server_id : ℕ
  pub owner_id : Option ℕ
  pub allocated_ram_mb : ℕ
  pub allocated_cores : ℕ
  pub internal_ip : Option Ip
  pub vm_password : Option String
  pub created_at : ℕ
  pub expires_at : Option ℕ
  pub auto_snapshot : Bool
  pub purpose : Option String
  pub ready : Bool

-- models/vm_port.py; `action` is the constant "ACCEPT".
pub record VmPort : Type 0 where
  pub id : ℕ
  pub vm_id : ℕ
  pub internal_port : ℕ
  pub external_port : ℕ
  pub protocol : Protocol
  pub source : Option String
  pub description : Option String
  pub is_default : Bool

-- models/https_route.py
pub record HttpsRoute : Type 0 where
  pub id : ℕ
  pub vm_id : ℕ
  pub subdomain : String
  pub internal_port : ℕ
  pub caddy_synced : Bool

-- `signup_role` of a verification record: the two sign-ups, and `_reset_signup_role` of the two
-- login roles, "password_reset:user" and "password_reset:project_owner".
pub data SignupRole : Type 0 where
  signup_user signup_project_owner reset_user reset_project_owner : SignupRole

-- models/email_verification.py
pub record EmailVerification : Type 0 where
  pub id : ℕ
  pub email : String
  pub hashed_password : String
  pub code : String
  pub student_info : Option Student
  pub signup_role : SignupRole
  pub project_name : Option String
  pub project_reason : Option String
  pub created_at : ℕ
  pub expires_at : ℕ
  pub verified : Bool
  pub attempts : ℕ

pub data NotificationKind : Type 0 where
  success info error : NotificationKind

-- The messages that the program writes.
pub data NotificationText : Type 0 where
  vm_created : Text → String → NotificationText
  vm_deleted vm_expired_deleted vm_grace : Text → NotificationText
  vm_expiring : Text → ℕ → NotificationText
  admin_expiry : List (Text × ℕ × ℕ) → NotificationText
  task_failing : String → ℕ → NotificationText

-- models/notification.py
pub record Notification : Type 0 where
  pub id : ℕ
  pub user_id : ℕ
  pub kind : NotificationKind
  pub message : NotificationText
  pub is_read : Bool
  pub created_at : ℕ

-- models/faq_question.py
pub record FaqQuestion : Type 0 where
  pub id : ℕ
  pub user_id : ℕ
  pub question : String
  pub answer : Option String
  pub answered_at : Option ℕ
  pub created_at : ℕ

-- schemas/vm_schema.py: a validated request to create a VM.
pub record VmCreate : Type 0 where
  pub tier : VmTier
  pub os : VmOs
  pub node_name : Option String
  pub name : Option String
  pub purpose : String
  pub custom_cores : Option ℕ
  pub custom_memory : Option ℕ
  pub custom_disk : Option ℕ

-- The dictionary that `create_vm` returns.
pub record VmCreated : Type 0 where
  pub assigned_node : String
  pub vmid : ℕ
  pub name : Text
  pub tier : VmTier
  pub internal_ip : Ip
  pub ssh_user : String
  pub ssh_password : String

-- The parts of a job id, "<time_ns>-<pid>-<counter>" with leading zeros.
pub record JobId : Type 0 where
  pub time_ns : ℕ
  pub pid : ℕ
  pub counter : ℕ

-- `error_message` of a failed job: the HTTPException's detail, or `_GENERIC_FAILURE_MESSAGE`.
pub data JobError : Type 0 where
  detail : Detail → JobError
  generic : JobError

-- models/vm_creation_job.py
pub record VmCreationJob : Type 0 where
  pub id : JobId
  pub user_id : ℕ
  pub status : JobStatus
  pub node_name : Option String
  pub requested_name : Option String
  pub queued_at : ℕ
  pub started_at : Option ℕ
  pub finished_at : Option ℕ
  pub vmid : Option ℕ
  pub attempts : ℕ
  pub payload : VmCreate
  pub result : Option VmCreated
  pub error_message : Option JobError

-- core/database.py: the tables. The keys of `vm_creation_jobs` are the job ids.
pub record Db : Type 0 where
  pub users : Table User
  pub servers : Table Server
  pub vms : Table Vm
  pub vm_ports : Table VmPort
  pub https_routes : Table HttpsRoute
  pub email_verifications : Table EmailVerification
  pub notifications : Table Notification
  pub faq_questions : Table FaqQuestion
  pub vm_creation_jobs : List VmCreationJob
