-- ===== src/Bin/Constants.antt =====
-- aicl/bin/errors.py and aicl/bin/identity.py: the numbers of errors, severities, identities, qualities of
-- service, references and methods of authentication. The texts of the tables are for display.
use aicl.Common.{ℕ}

abbrev pub err_timeout : ℕ
err_timeout = 0x0001

abbrev pub err_unavailable : ℕ
err_unavailable = 0x0002

abbrev pub err_unsupported : ℕ
err_unsupported = 0x0003

abbrev pub err_invalid : ℕ
err_invalid = 0x0004

abbrev pub err_permission : ℕ
err_permission = 0x0005

abbrev pub err_overloaded : ℕ
err_overloaded = 0x0006

abbrev pub err_cancelled : ℕ
err_cancelled = 0x0007

abbrev pub err_internal : ℕ
err_internal = 0x0008

abbrev pub err_protocol : ℕ
err_protocol = 0x0009

abbrev pub err_auth : ℕ
err_auth = 0x000A

abbrev pub severity_fatal : ℕ
severity_fatal = 0

abbrev pub severity_error : ℕ
severity_error = 1

abbrev pub severity_warning : ℕ
severity_warning = 2

abbrev pub severity_info : ℕ
severity_info = 3

abbrev pub identity_module : ℕ
identity_module = 0x01

abbrev pub identity_agent : ℕ
identity_agent = 0x02

abbrev pub identity_model : ℕ
identity_model = 0x03

abbrev pub identity_runtime : ℕ
identity_runtime = 0x04

abbrev pub identity_system : ℕ
identity_system = 0x05

abbrev pub identity_external : ℕ
identity_external = 0x06

abbrev pub priority_critical : ℕ
priority_critical = 0

abbrev pub priority_high : ℕ
priority_high = 1

abbrev pub priority_normal : ℕ
priority_normal = 2

abbrev pub priority_low : ℕ
priority_low = 3

abbrev pub priority_background : ℕ
priority_background = 4

abbrev pub reliability_at_most_once : ℕ
reliability_at_most_once = 0

abbrev pub reliability_at_least_once : ℕ
reliability_at_least_once = 1

abbrev pub reliability_exactly_once : ℕ
reliability_exactly_once = 2

abbrev pub ordering_unordered : ℕ
ordering_unordered = 0

abbrev pub ordering_fifo : ℕ
ordering_fifo = 1

abbrev pub ordering_strict : ℕ
ordering_strict = 2

abbrev pub delivery_best_effort : ℕ
delivery_best_effort = 0

abbrev pub delivery_guaranteed : ℕ
delivery_guaranteed = 1

abbrev pub ref_shmem : ℕ
ref_shmem = 0x01

abbrev pub ref_file : ℕ
ref_file = 0x02

abbrev pub ref_s3 : ℕ
ref_s3 = 0x03

abbrev pub ref_url : ℕ
ref_url = 0x04

abbrev pub ref_gpu_buffer : ℕ
ref_gpu_buffer = 0x05

abbrev pub auth_hmac_sha256 : ℕ
auth_hmac_sha256 = 0x01

abbrev pub auth_ed25519 : ℕ
auth_ed25519 = 0x02

abbrev pub auth_tls_client_cert : ℕ
auth_tls_client_cert = 0x03
