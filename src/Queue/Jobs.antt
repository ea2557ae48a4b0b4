-- ===== src/Queue/Jobs.antt =====
-- The table `tasks` of database.py. A function takes the time that it reads as its first argument.
-- The columns that `save_task` copies from the configuration keep the value they are given.
pub mod Counts
use rpa_group.Prelude.{
  ℕ, String, Bool, true, false, Option, none, some, List, [], ◌∷◌, ◌++◌, ◌==◌, if◌then◌else◌,
  is_empty, length, find, select, update_where, count_where, order_by, head?, take, drop, any,
  text_le, ltb,
}
use rpa_group.Prelude.Value.{Value, str, Fields, get_or}

pub record Job : Type 0 where
  pub task_id : String
  pub task_type : String
  pub status : String
  pub customer_name : Value
  pub owner_name : Value
  pub group_type : Value
  pub group_name : Value
  pub target_group : Value
  pub message_content : Value
  pub paas_id : Value
  pub user_id : Value
  pub error_msg : String
  pub error_type : String
  pub error_detail : String
  pub config : Fields
  pub created_at : String
  pub updated_at : String

abbrev pub job_is : String → Job → Bool
job_is id j = j.task_id == id

abbrev pub has_status : String → Job → Bool
has_status status j = j.status == status

unfoldable pub reset : String → Job → Job
reset now j = record j { status = "pending"; updated_at = now }

unfoldable pub recover_interrupted_tasks : String → List Job → List Job
unfolding reset
recover_interrupted_tasks now = update_where (has_status "running") (reset now)

unfoldable pub new_job : String → String → String → String → Fields → Job
new_job now task_id task_type status config = record {
  task_id = task_id;
  task_type = task_type;
  status = status;
  customer_name = get_or "客户名称" (str "") config;
  owner_name = get_or "粘贴群主姓名" (str "") config;
  group_type = get_or "群类型" (str "") config;
  group_name = get_or "粘贴群名称" (str "") config;
  target_group = get_or "目标群名称" (str "") config;
  message_content = get_or "消息内容" (str "") config;
  paas_id = get_or "paas_id" (str "") config;
  user_id = get_or "user_id" (str "") config;
  error_msg = "";
  error_type = "";
  error_detail = "";
  config = config;
  created_at = now;
  updated_at = now;
}

-- INSERT OR IGNORE: a row whose id is there already is passed over.
unfoldable pub save_task : String → String → String → String → Fields → List Job → List Job
unfolding new_job
save_task now task_id task_type status config jobs =
    if any (job_is task_id) jobs
    then jobs
    else jobs ++ new_job now task_id task_type status config ∷ []

-- What `update_task_status` writes; the three texts default to "".
pub record Report : Type 0 where
  pub status : String
  pub error_msg : String
  pub error_type : String
  pub error_detail : String

unfoldable pub with_report : String → Report → Job → Job
with_report now r j = record j {
  status = r.status;
  error_msg = r.error_msg;
  error_type = r.error_type;
  error_detail = r.error_detail;
  updated_at = now;
}

unfoldable pub update_task_status : String → String → Report → List Job → List Job
unfolding with_report
update_task_status now task_id r = update_where (job_is task_id) (with_report now r)

unfoldable pub get_task_detail : String → List Job → Option Job
get_task_detail task_id = find (job_is task_id)

-- ORDER BY created_at ASC LIMIT 1
abbrev pub oldest_first : Job → Job → Bool
oldest_first a b = text_le a.created_at b.created_at

unfoldable pub get_next_pending_task : List Job → Option Job
get_next_pending_task jobs = head? (order_by oldest_first (select (has_status "pending") jobs))

-- `WHERE task_type=?` where a type is given that is not empty.
unfoldable pub of_type : Option String → Job → Bool
of_type none j = true
of_type (some t) j = if is_empty t then true else j.task_type == t

-- ORDER BY created_at DESC LIMIT ? OFFSET ?, for a limit and an offset that are not negative.
unfoldable pub get_task_history : ℕ → ℕ → Option String → List Job → List Job
unfolding of_type
get_task_history limit offset task_type jobs = take limit (
    drop offset
      (order_by (λ a b. text_le b.created_at a.created_at) (select (of_type task_type) jobs)))

-- GROUP BY status: the number of the rows with one status, among those of a type.
unfoldable pub count_status : Option String → String → List Job → ℕ
unfolding of_type
count_status task_type status jobs =
    count_where (has_status status) (select (of_type task_type) jobs)

unfoldable pub get_total_count : Option String → List Job → ℕ
unfolding of_type
get_total_count task_type jobs = length (select (of_type task_type) jobs)

unfoldable pub is_task_running : List Job → Bool
is_task_running jobs = ltb 0 (count_where (has_status "running") jobs)

pub record QueueStats : Type 0 where
  pub pending : ℕ
  pub running : ℕ
  pub success : ℕ
  pub failed : ℕ
  pub group_not_found : ℕ
  pub retried : ℕ
  pub queue_paused : Bool
  pub task_running : Bool
  pub queue_length : ℕ

-- `paused` is what `is_queue_paused` gives.
unfoldable pub get_queue_stats : Option String → Bool → List Job → QueueStats
get_queue_stats task_type paused jobs = record {
  pending = count_status task_type "pending" jobs;
  running = count_status task_type "running" jobs;
  success = count_status task_type "success" jobs;
  failed = count_status task_type "failed" jobs;
  group_not_found = count_status task_type "group_not_found" jobs;
  retried = count_status task_type "retried" jobs;
  queue_paused = paused;
  task_running = is_task_running jobs;
  queue_length = count_status task_type "pending" jobs;
}
