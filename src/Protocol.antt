-- ===== src/Protocol.antt =====
-- The virtio sound protocol of viosnd/sys/VirtioSnd.h: request and response codes, format and rate
-- numbers, and the structures that the driver reads and writes.
use viosnd.Base.{ℕ}

-- VIRTIO_SND_D_*
abbrev pub d_output : ℕ
d_output = 0

abbrev pub d_input : ℕ
d_input = 1

-- VIRTIO_SND_R_*
abbrev pub r_pcm_info : ℕ
r_pcm_info = 0x0100

abbrev pub r_pcm_set_params : ℕ
r_pcm_set_params = 0x0101

abbrev pub r_pcm_prepare : ℕ
r_pcm_prepare = 0x0102

abbrev pub r_pcm_release : ℕ
r_pcm_release = 0x0103

abbrev pub r_pcm_start : ℕ
r_pcm_start = 0x0104

abbrev pub r_pcm_stop : ℕ
r_pcm_stop = 0x0105

-- VIRTIO_SND_S_*
abbrev pub s_ok : ℕ
s_ok = 0x8000

abbrev pub s_bad_msg : ℕ
s_bad_msg = 0x8001

abbrev pub s_not_supp : ℕ
s_not_supp = 0x8002

-- VIRTIO_SND_EVT_PCM_XRUN
abbrev pub evt_pcm_xrun : ℕ
evt_pcm_xrun = 0x1101

-- VIRTIO_SND_PCM_FMT_S16
abbrev pub fmt_s16 : ℕ
fmt_s16 = 5

-- VIRTIO_SND_PCM_RATE_*
abbrev pub rate_16000 : ℕ
rate_16000 = 3

abbrev pub rate_44100 : ℕ
rate_44100 = 6

abbrev pub rate_48000 : ℕ
rate_48000 = 7

-- struct virtio_snd_pcm_info, less the header and the padding, which the driver does not read.
pub record PcmInfo : Type 0 where
  pub features : ℕ
  pub formats : ℕ
  pub rates : ℕ
  pub direction : ℕ
  pub channels_min : ℕ
  pub channels_max : ℕ

-- struct virtio_snd_pcm_set_params, its nested headers flattened.
pub record PcmSetParams : Type 0 where
  pub code : ℕ
  pub stream_id : ℕ
  pub buffer_bytes : ℕ
  pub period_bytes : ℕ
  pub features : ℕ
  pub channels : ℕ
  pub format : ℕ
  pub rate : ℕ
