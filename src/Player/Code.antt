-- ===== src/Player/Code.antt =====
-- A name that opens the functions of app/player.c in the proofs about them.
use graceful_music.Common.{Bool, true}
use graceful_music.Player.State.{
  ip_new, ip_open, ip_close, ip_delete, ip_is_remote, ip_seek, set_buffer_sf, op_open, op_close,
  op_drop, op_pause, op_unpause, reset_buffer, file_changed, player_error, player_status_changed,
}
use graceful_music.Player.Producer.{
  producer_status_update, producer_load, producer_reopen, producer_restart, producer_play,
  producer_close, producer_drop, producer_stop, producer_unload, producer_pause, producer_set_file,
  prebuffer,
}
use graceful_music.Player.Consumer.{
  consumer_status_update, consumer_open, consumer_play, consumer_stop, consumer_drain_and_stop,
  consumer_pause, change_sf, change_sf_keep, change_sf_reopen, same_album, goes_on, eof_repeat,
  eof_next, eof_load, eof_track_unbuffered, eof_track, eof_end, consumer_handle_eof,
  consumer_reopen,
}
use graceful_music.Player.Api.{
  player_stop, start_consumer, start_unbuffered, player_start, player_play, unstop_unbuffered,
  unstop, toggle_pause, pause_forbidden, player_pause, player_pause_playback, prebuffer_playing,
  switch_file, set_file_unbuffered, player_set_file, play_opened, open_and_play,
  play_file_unbuffered, player_play_file, player_file_changed, reopen_op, player_set_op,
  player_set_buffer_chunks,
}
use graceful_music.Player.State.{shown_pos, consumer_position_update}
use graceful_music.Player.Seek.{
  seek_start, seek_pos, seek_done, seek_track, seek_running, player_seek,
}

-- It stands on the `unfolding` line of a theorem in place of all of them.
unfoldable pub code : Bool
unfolding ip_new ip_open ip_close ip_delete ip_is_remote ip_seek set_buffer_sf op_open op_close
    op_drop op_pause op_unpause reset_buffer file_changed player_error player_status_changed
    producer_status_update producer_load producer_reopen producer_restart producer_play
    producer_close producer_drop producer_stop producer_unload producer_pause producer_set_file
    prebuffer consumer_status_update consumer_open consumer_play consumer_stop
    consumer_drain_and_stop consumer_pause change_sf change_sf_keep change_sf_reopen same_album
    goes_on eof_repeat eof_next eof_load eof_track_unbuffered eof_track eof_end consumer_handle_eof
    consumer_reopen player_stop start_consumer start_unbuffered player_start player_play
    unstop_unbuffered unstop toggle_pause pause_forbidden player_pause player_pause_playback
    switch_file set_file_unbuffered player_set_file prebuffer_playing play_opened open_and_play
    play_file_unbuffered player_play_file player_file_changed reopen_op player_set_op
    player_set_buffer_chunks shown_pos seek_start seek_pos seek_done seek_track seek_running
    player_seek consumer_position_update
code = true
