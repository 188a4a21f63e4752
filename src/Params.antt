-- ===== src/Params.antt =====
-- The constants of two_rounds/strutture.h that bound the buffers.
use rounds.Base.{ℕ, ◌*◌}

-- `_MAX_AGE`: the number of age lists of the neighbour buffer
abbrev pub max_age : ℕ
max_age = 7

-- `_FANOUT`
abbrev pub fanout : ℕ
fanout = 7

-- `_VISTA_AGE`: the cells of one age list
abbrev pub vista_age : ℕ
vista_age = fanout * 4

-- `_MAX_HASH_VICINO`, the number of hashes that travel with a peer, and the bytes of one MD5 hash
abbrev pub max_hash_vicino : ℕ
max_hash_vicino = 2

abbrev pub hash_size : ℕ
hash_size = 16

-- `_GOSSIP_NODI`: the neighbours in an information gossip
abbrev pub gossip_nodi : ℕ
gossip_nodi = 10

-- `_ID_M`, `_ID_M_PARTIAL`, `_ID_M_nodo`, `_ID_COUNT`: the bytes of a message id and of its parts
abbrev pub id_m : ℕ
id_m = 16

abbrev pub id_m_partial : ℕ
id_m_partial = 12

-- `_MAX_COUNT_MSG`
abbrev pub max_count_msg : ℕ
max_count_msg = 10000

-- `_MAX_MSM`, `_MAX_BYE_PEER`, `_MAX_EVT`, `_MAX_RESULT`, `_MAX_RS`, `_MAX_QUERY_BUFFERNEIGBOUR`
abbrev pub max_msm : ℕ
max_msm = 500

abbrev pub max_bye_peer : ℕ
max_bye_peer = 100

abbrev pub max_evt : ℕ
max_evt = 1

abbrev pub max_result : ℕ
max_result = 100

abbrev pub max_rs : ℕ
max_rs = 30

abbrev pub max_query_buffer_neighbour : ℕ
max_query_buffer_neighbour = 5

-- `_DIF_TIME_DATED_MSG` and `_DIF_TIME_DATED_BYE_PEER`
abbrev pub dif_time_dated : ℕ
dif_time_dated = max_age * 15

-- `_RAGGIO_QUERY`
abbrev pub raggio_query : ℕ
raggio_query = 10

-- `_BIG_NUM`
abbrev pub big_num : ℕ
big_num = 100_000_000

-- The port of the gossip messages, `PORT1`
abbrev pub port1 : ℕ
port1 = 5196

-- `_ID_COUNT`
abbrev pub id_count : ℕ
id_count = 4

-- `SERVER_NODI` and, of the server, `_N_NODI`
abbrev pub server_nodi : ℕ
server_nodi = 10

abbrev pub n_nodi : ℕ
n_nodi = 10000

-- `_MAX_COUNT_RG_RS`: how often a round of gossip runs the round speed
abbrev pub max_count_rg_rs : ℕ
max_count_rg_rs = 11
