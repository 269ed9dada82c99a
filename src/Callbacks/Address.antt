-- ===== src/Callbacks/Address.antt =====
-- The addresses of the callbacks of APIs/cli/cli_rtcdc.c and APIs/fs/fs_rtcdc.c.
use librtcdc.Base.{ℕ}

abbrev pub upload_client_on_open_at : ℕ
upload_client_on_open_at = 1

abbrev pub upload_client_on_message_at : ℕ
upload_client_on_message_at = 2

abbrev pub upload_client_on_channel_at : ℕ
upload_client_on_channel_at = 3

abbrev pub download_client_on_message_at : ℕ
download_client_on_message_at = 4

abbrev pub download_client_on_channel_at : ℕ
download_client_on_channel_at = 5

abbrev pub upload_fs_on_open_at : ℕ
upload_fs_on_open_at = 6

abbrev pub upload_fs_on_message_at : ℕ
upload_fs_on_message_at = 7

abbrev pub upload_fs_on_channel_at : ℕ
upload_fs_on_channel_at = 8

abbrev pub download_fs_on_open_at : ℕ
download_fs_on_open_at = 9

abbrev pub download_fs_on_message_at : ℕ
download_fs_on_message_at = 10

abbrev pub download_fs_on_channel_at : ℕ
download_fs_on_channel_at = 11
