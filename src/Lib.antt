-- ===== src/Lib.antt =====
-- Verification library of iot-zephyr-app, a collection of Zephyr firmware: gateways, hand controllers
-- and IO nodes, with the drivers and libraries that they share. It models the parts that carry logic
-- of their own and proves what they promise. Each file's comment says which code it is about.
--
-- Base: numbers, tests, lists, machine words and binary digits that all parts use.
-- Zephyr: what the code relies on of Zephyr, as records of functions with the laws that its
--   documentation states: sys/byteorder.h (Zephyr.ByteOrder) and crc16_ccitt (Zephyr.Crc).
--   Zephyr.Model has concrete functions that meet these laws, for the tests.
-- Crypt: drivers/nrf24l01p/nrf24_crypt.c. The static variables are the fields of Crypt; set_key,
--   seal, open_frame, rx_reset and ctr_xor are the functions nrf24_crypt_set_key, nrf24_crypt_seal,
--   nrf24_crypt_open, nrf24_crypt_rx_reset and ctr_xor; buffers are lists of bytes. XXTEA makes its
--   6 + 52 / 2 rounds; ctr_xor's loop has a fuel of the length of the buffer, and a round takes at
--   least one byte. Children: Stream (the keystream), Window (the guess of the counter), Link (one
--   frame), Session (many frames with losses), Leak (where the keystream is used twice).
-- UdpUpgrade: libs/udp_fw_upgrade/udp_fw_upgrade.c. UdpFw has its static variables, Build its
--   configuration and Zephyr's functions; Answers is what Zephyr and the callbacks return while one
--   command is handled, and an Effect is a call out of the library. Commands has one function for
--   each case of handle_fw_cmd; Receive has the receive thread and udp_fw_start. The CRC loop has a
--   fuel of written / 64 + 1 rounds, of 64 bytes each. Children: Commands.Window (the offsets of
--   DATA_V2), Commands.Verify (FW_END), Commands.Guards (FW_START), Commands.Replies,
--   Receive.Routing, Registry.
-- CanUpgrade: libs/can_fw_upgrade/can_fw_upgrade.c and can_fw_boot.c, in the build of an application
--   and in that of the boot loader (Build.boot_wait). CanFw has the static variables; Frames has the
--   handlers and the thread (rx_frame), Init has can_fw_init, and Boot has boot_go_hook, whose loops
--   run over what they read of the clock and of the variables that the thread writes. The loop of
--   the version text has a fuel of len / 7 + 1 rounds, of seven bytes each. Children: Frames.Key
--   (the key hash), Frames.Update, Frames.Counted and Frames.Session (updates), Frames.Version, Boot.Ends.
--   The slots of its handlers are searched by the functions of UdpUpgrade, whose code is the same.
-- ModbusRegs: applications/io-edge-hub/src/modbus/function.c. Regs has the two register arrays, and
--   an Effect is what a write does beside; Settings has the saving and loading of parameters.
--   Children: Outputs, Overlap (writes by different threads that overlap, since io_write_holding
--   takes no lock), Writes, Settings.Roundtrip.
-- ModbusTcp: applications/io-edge-hub/src/modbus/tcp.c. Server has the static variables of the wait
--   for the Modbus server, Net the functions of Zephyr on a state outside; request and
--   handle_client are one request, Clients has the list of clients and the passes of the thread.
--   The loop of recv_full has a fuel of the bytes that it wants, and a round reads at least one.
--   The wait ends when its list of arrivals does. Children: Buffers, Replies, Clients.Accounts.
-- History: applications/io-edge-hub/src/history/history.c. History has its queue and its static
--   variables, Fs the functions of the file system and the clock on a state outside; Files has the
--   names and the rotation, whose loop has a fuel of the surplus. An Event is a sample, a run of the
--   work, the switch or a synchronisation. Children: Keeps (the file that is open), Order,
--   Files.Names, Files.Rotation.
-- J1939: examples/j1939-demo/src/j1939.h, j1939.c and j1939_tp.c. J1939 has the static variables;
--   Claim has j1939_claim_address with what the receive thread hears in each of its rounds, which
--   descend by address; Transport has the BAM broadcast, with a fuel of a round for each seven
--   bytes. Children: Ids, Names, Claim.Choice, Claim.Arbitration, Transport.Reassembly.
-- Sampling: applications/io-edge-hub/src/io/dio.c and adc.c, a pass of each sampling thread and
--   mb_set_do, on the registers of ModbusRegs and with the records of History. Child: Inputs.
-- StatusLeds: applications/n2e-gw/src/led.c. Leds has the lights, the static variables, and whether
--   the two delayed works are scheduled. Child: Runs.
-- SdoDownload: applications/canopen-io/src/fw_download.c and fw_upgrade_state.c. SdoFw has the static
--   variables with the shared lock; step is an access to one of the two objects or what another
--   channel does to the lock, and run a sequence of them. Children: Lock, Update, Complete.
-- GatewayRadio: applications/n2e-gw/src/rf24.c, the sending of a frame with its attempts and a pass
--   of the receive thread, on the encryption of Crypt. The outcome of each attempt is an argument;
--   the loop's fuel is the number of retries that are left. Child: Transfer.
-- Handler: applications/angle-handler. Handler is what include/common.h and the static variables of
--   src/gpio.c and src/rf24.c share of the link and the power. Power has gpio.c's switching, with
--   system_sleep and system_wake each cut at its wait, and main's loop; Reach below it has the steps
--   of all threads. Stick is src/adc.c (a pass reads ten samples of each axis) with the button's
--   work, Radio the quality in rf24.c, and Scanner the parsing in src/can.c and rf24.c's receive
--   thread, where a copy past the end of the frame's buffer is an outcome of its own. Link
--   is the sending in src/common.c and rf24.c with the rest of can.c, on the frames of
--   GatewayRadio, whose code is the same; Battery is the second thread of adc.c. Children:
--   Power.Reach, Stick.Angles, Radio.Bars, Scanner.Frames, Link.Sends.
-- GatewayUdp: applications/n2e-gw/src/udp.c. GwParams has the settings; there is a function for each
--   case of app_cmd_handler, and one for a pass of each thread. The record Inet stands for inet_pton
--   and inet_ntop. Children: Settings, Queue (what the threads do to gw_tx_msgq), Coordinates (from
--   the host through this gateway to the handle), Angles (the way back).
-- WebJson: applications/io-edge-hub/src/web/web_json.h. The search of a URL parameter has a fuel of the
--   text's length, that of a JSON key one of the buffer's length, since each round goes on by at
--   least a character. Child: Query.
-- ConfigCommands: applications/io-edge-hub/src/udp.c. UdpApp has the registers and the two static
--   variables; there is a function for each case of app_cmd_handler. Child: Laws.
--
-- A failing call returns none, or is an answer that the model's functions take as an argument. A
-- callback is a number. Logging, sleeping and locks are not modelled: an operation is one step, but
-- for io_write_holding in ModbusRegs.Overlap and the two waits in Handler.Power.
-- Not modelled are the drivers' register accesses, displays, shells, the web and FTP servers, the
-- rest of the applications, and the other examples.
pub mod Base
pub mod Zephyr
pub mod Crypt
pub mod UdpUpgrade
pub mod CanUpgrade
pub mod Handler
pub mod History
pub mod J1939
pub mod SdoDownload
pub mod StatusLeds
pub mod Sampling
pub mod GatewayRadio
pub mod GatewayUdp
pub mod WebJson
pub mod ModbusRegs
pub mod ModbusTcp
pub mod ConfigCommands
