-- ===== src/Examples/Docker.antt =====
-- A Docker Engine that is the list of its containers.
use arbiter_distributed_sche.Base.{
  All, List, String, [], arith, false, inr, none, not, refl, select, some, str_eq, ◌++◌, ◌∷◌, ◌≡◌,
}
use arbiter_distributed_sche.Base.Text.{str_append}
use arbiter_distributed_sche.Docker.{Engine, Listed, answered, kill_task_containers, removal_of}
use arbiter_distributed_sche.Docker.Fuel.{read_frames_enough}
use arbiter_distributed_sche.Docker.Killing.{
  IsAnswering, carries, kill_task_containers-kills, runs_task,
}
use arbiter_distributed_sche.Docker.Logs.{
  Frame, decode-encode, decode_docker_logs, encode, payloads, read_frames,
}
use arbiter_distributed_sche.Store.{Labels}

abbrev container_of : String → Labels → Listed
container_of id labels = record {
  id = id;
  names = str_append "/" id ∷ [];
  labels = labels;
  state = "running";
}

abbrev pub docker : Engine (List Listed)
docker = record {
  list = λ labels every d. answered 200 (some (select (carries labels) d));
  logs = λ id tail d. answered 200 (some []);
  networks = λ id d. answered 200 (some ("deploy_default" ∷ []));
  delete = λ id force d. (answered 204 none, select (λ c. not (str_eq c.id id)) d);
  create = λ name body d. (
    answered 201 (some name),
    record { id = name; names = name ∷ []; labels = body.labels; state = "created" } ∷ d,
  );
  start = λ id d. (answered 204 none, d);
}

docker-IsAnswering : IsAnswering docker (λ d. d)
unfolding removal_of
docker-IsAnswering = record {
  lists = λ labels d. refl;
  deletes = λ id d. refl;
  removes = λ id d. refl;
}

abbrev busy : List Listed
busy =
    container_of "c1" (("arbiter.task_id", "t1") ∷ [])
    ∷ container_of "c2" (("arbiter.task_id", "t2") ∷ [])
    ∷ container_of "c3" (("arbiter.task_id", "t1") ∷ [])
    ∷ []

kill_task_containers-kills_example :
    ((kill_task_containers docker ("t1" ∷ []) busy).0 ≡ inr tt)
    × All
        (λ id. All (λ x. runs_task id x ≡ false) (kill_task_containers docker ("t1" ∷ []) busy).1)
        ("t1" ∷ [])
kill_task_containers-kills_example =
    kill_task_containers-kills docker (λ d. d) docker-IsAnswering ("t1" ∷ []) busy

abbrev frames : List Frame
frames = (1, 104 ∷ 105 ∷ []) ∷ (2, 33 ∷ []) ∷ []

decode-encode_example : decode_docker_logs (encode frames ++ 1 ∷ 0 ∷ 0 ∷ []) ≡ payloads frames
unfolding payloads
decode-encode_example =
    decode-encode frames (1 ∷ 0 ∷ 0 ∷ []) (omega arith) (omega arith, (omega arith, tt)) (λ e. cc)

read_frames_enough_example : read_frames 3 (1 ∷ 2 ∷ 3 ∷ []) ≡ read_frames 9 (1 ∷ 2 ∷ 3 ∷ [])
read_frames_enough_example = read_frames_enough 3 9 (1 ∷ 2 ∷ 3 ∷ []) (omega arith) (omega arith)
