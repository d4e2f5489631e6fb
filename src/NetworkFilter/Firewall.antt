-- ===== src/NetworkFilter/Firewall.antt =====
-- network-filter/src/lib.rs, the firewall commands: `rule_specs`, `run_iptables_command`,
-- `apply_iptables_block`, `remove_iptables_block`.
pub mod Kernel
pub mod Blocks
pub mod Removal
use netsentry_sensor.Common.{
  ℕ, ◌≡◌, Bool, true, false, not, ◌&&◌, ◌||◌, List, [], ◌∷◌, ◌++◌, if◌then◌else◌,
}
use netsentry_sensor.Common.Outcome.{Result, ok, err}
use netsentry_sensor.Common.Text.{Text, codes, text_eq, contains}

-- `std::process::Output`, as far as it is read
pub record Output : Type 0 where
  pub success : Bool
  pub stderr : Text

-- The machine: `exec` runs a program with arguments on the state `K` of the kernel, and fails if the
-- program cannot be started. The variables of the environment are read at each call.
pub record Machine (K : Type 0) : Type 0 where
  pub exec : Text → List Text → K → Result Output Text × K
  pub netns_exists : Bool
  pub netns_path : Text
  pub interface : Text

pub record RuleSpec : Type 0 where
  pub chain : Text
  pub args : List Text
  pub insert_action : Text

abbrev drop_rule : List Text → Text → Text → List Text
drop_rule before flag ip = before ++ (flag ∷ ip ∷ codes "-j" ∷ codes "DROP" ∷ [])

abbrev pub docker_user : Text
docker_user = codes "DOCKER-USER"

unfoldable pub rule_specs : Text → Text → List RuleSpec
rule_specs interface ip =
    record { chain = docker_user; args = drop_rule [] (codes "-s") ip; insert_action = codes "-I" }
    ∷ record {
      chain = docker_user;
      args = drop_rule [] (codes "-d") ip;
      insert_action = codes "-I";
    }
    ∷ record {
      chain = codes "INPUT";
      args = drop_rule (codes "-i" ∷ interface ∷ []) (codes "-s") ip;
      insert_action = codes "-A";
    }
    ∷ record {
      chain = codes "OUTPUT";
      args = drop_rule (codes "-o" ∷ interface ∷ []) (codes "-d") ip;
      insert_action = codes "-A";
    }
    ∷ record {
      chain = codes "FORWARD";
      args = drop_rule (codes "-i" ∷ interface ∷ []) (codes "-s") ip;
      insert_action = codes "-A";
    }
    ∷ record {
      chain = codes "FORWARD";
      args = drop_rule (codes "-o" ∷ interface ∷ []) (codes "-d") ip;
      insert_action = codes "-A";
    }
    ∷ []

-- A computation on the kernel that may fail with a message.
abbrev pub Run : Type 0 → Type 0 → Type 0
Run K A = K → Result A Text × K

abbrev pub return : {K A : Type 0} → A → Run K A
return a k = (ok a, k)

abbrev pub fail : {K A : Type 0} → Text → Run K A
fail e k = (err e, k)

abbrev continue : {K A B : Type 0} → (A → Run K B) → Result A Text × K → Result B Text × K
continue f (ok a, k) = f a k
continue f (err e, k) = (err e, k)

infixl 5 ◌>>=◌ ◌>>◌
abbrev pub ◌>>=◌ : {K A B : Type 0} → Run K A → (A → Run K B) → Run K B
◌>>=◌ m f k = continue f (m k)

abbrev pub ◌>>◌ : {K A B : Type 0} → Run K A → Run K B → Run K B
m >> n = m >>= λ _. n

-- the messages at which the container's own namespace is tried
unfoldable pub is_denied : Text → Bool
is_denied stderr =
    contains stderr (codes "Permission denied")
    || contains stderr (codes "Operation not permitted")
    || contains stderr (codes "failed to execute")

unfoldable pub run_iptables_command : {K : Type 0} → Machine K → List Text → Run K Output
run_iptables_command m args =
    if m.netns_exists
    then (do
      output ← m.exec (codes "nsenter") ((codes "--net=" ++ m.netns_path) ∷ codes "iptables" ∷ args)
      if is_denied output.stderr then m.exec (codes "iptables") args else return output)
    else m.exec (codes "iptables") args

abbrev add_failure : Text → Text → Text → Text
add_failure chain ip stderr =
    codes "Failed to add firewall rule on "
    ++ (chain ++ (codes " for " ++ (ip ++ (codes ": " ++ stderr))))

-- what follows the `-I` or `-A` command
unfoldable pub after_add : {K : Type 0} → Text → Text → Output → Run K (Unit {0})
after_add ip chain output =
    if output.success
    then return tt
    else if text_eq chain docker_user && contains output.stderr (codes "No chain/target/match")
    then return tt
    else fail (add_failure chain ip output.stderr)

-- one round of the loop of `apply_iptables_block`
unfoldable pub apply_spec : {K : Type 0} → Machine K → Text → RuleSpec → Run K (Unit {0})
apply_spec m ip spec = do
  check_output ← run_iptables_command m (codes "-C" ∷ spec.chain ∷ spec.args)
  if check_output.success then return tt else (do
    output ← run_iptables_command m (spec.insert_action ∷ spec.chain ∷ spec.args)
    after_add ip spec.chain output)

unfoldable pub apply_specs : {K : Type 0} → Machine K → Text → List RuleSpec → Run K (Unit {0})
apply_specs m ip [] = return tt
apply_specs m ip (spec ∷ specs) = do apply_spec m ip spec; apply_specs m ip specs

unfoldable pub apply_iptables_block : {K : Type 0} → Machine K → Text → Run K (Unit {0})
apply_iptables_block m ip = apply_specs m ip (rule_specs m.interface ip)

abbrev remove_failure : Text → Text → Text → Text
remove_failure chain ip stderr =
    codes "Failed to remove firewall rule on "
    ++ (chain ++ (codes " for " ++ (ip ++ (codes ": " ++ stderr))))

unfoldable pub after_delete : {K : Type 0} → Text → Text → Output → Run K (Unit {0})
after_delete ip chain output =
    if not output.success
      && (not (contains output.stderr (codes "No chain/target/match"))
          && not (contains output.stderr (codes "Bad rule")))
    then fail (remove_failure chain ip output.stderr)
    else return tt

-- one round of the loop of `remove_iptables_block`
unfoldable pub remove_spec : {K : Type 0} → Machine K → Text → RuleSpec → Run K (Unit {0})
remove_spec m ip spec = do
  output ← run_iptables_command m (codes "-D" ∷ spec.chain ∷ spec.args)
  after_delete ip spec.chain output

unfoldable pub remove_specs : {K : Type 0} → Machine K → Text → List RuleSpec → Run K (Unit {0})
remove_specs m ip [] = return tt
remove_specs m ip (spec ∷ specs) = do remove_spec m ip spec; remove_specs m ip specs

unfoldable pub remove_iptables_block : {K : Type 0} → Machine K → Text → Run K (Unit {0})
remove_iptables_block m ip = remove_specs m ip (rule_specs m.interface ip)

-- one command of the cleanup task; its outcome is only logged
unfoldable pub cleanup_spec : {K : Type 0} → Machine K → RuleSpec → K → K
cleanup_spec m spec k =
    let del_args = codes "-D" ∷ spec.chain ∷ spec.args in
    (if m.netns_exists
      then m.exec (codes "nsenter") (codes "--net" ∷ m.netns_path ∷ codes "iptables" ∷ del_args) k
      else m.exec (codes "iptables") del_args k).1

unfoldable pub cleanup_specs : {K : Type 0} → Machine K → List RuleSpec → K → K
cleanup_specs m [] k = k
cleanup_specs m (spec ∷ specs) k = cleanup_specs m specs (cleanup_spec m spec k)
